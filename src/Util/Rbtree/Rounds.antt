-- ===== src/Util/Rbtree/Rounds.antt =====
-- The three ways in which a round of `__rb_erase_color` (src/util/rbtree.c) can go.
use cserv.Prelude.{◌≡◌, refl, true, false, Bool-cases, inl, inr}
use cserv.Util.Rbtree.Tree.{Color, red, Tree, node, set_black, rotate_left, rotate_right}
use cserv.Util.Rbtree.Erase.{is_black, up, settled, lift_left, lift_right, round_left, round_right}

module _ {A : Type 0} where
  -- by the children `l` and `r` of the sibling, when the node is the left child
  pub data LeftCases (c : Color) (t : Tree A) (x : A) (d : Color) (l : Tree A) (y : A) (r : Tree A)
      : Type 0 where
    both :
        is_black l ≡ true
        → is_black r ≡ true
        → round_left c t x (node d l y r) ≡ up (node c t x (node red l y r))
        → LeftCases c t x d l y r
    near :
        is_black l ≡ false
        → is_black r ≡ true
        → round_left c t x (node d l y r)
          ≡ settled (lift_right c t x (rotate_right (node red (set_black l) y r)))
        → LeftCases c t x d l y r
    far :
        is_black r ≡ false
        → round_left c t x (node d l y r) ≡ settled (lift_right c t x (node d l y r))
        → LeftCases c t x d l y r

  pub left-cases :
      (c : Color) (t : Tree A) (x : A) (d : Color) (l : Tree A) (y : A) (r : Tree A)
      → LeftCases c t x d l y r
  unfolding round_left
  left-cases c t x d l y r = elim (Bool-cases (is_black l)) [
    | inl e ↦ elim (Bool-cases (is_black r)) [
      | inl f ↦ both e f (rw (e, f) refl)
      | inr f ↦ far f (rw (e, f) refl)
    ]
    | inr e ↦ elim (Bool-cases (is_black r)) [
      | inl f ↦ near e f (rw (e, f) refl)
      | inr f ↦ far f (rw (e, f) refl)
    ]
  ]

  -- and when it is the right child
  pub data RightCases (c : Color) (d : Color) (l : Tree A) (y : A) (r : Tree A) (x : A) (t : Tree A)
      : Type 0 where
    both :
        is_black l ≡ true
        → is_black r ≡ true
        → round_right c (node d l y r) x t ≡ up (node c (node red l y r) x t)
        → RightCases c d l y r x t
    near :
        is_black l ≡ true
        → is_black r ≡ false
        → round_right c (node d l y r) x t
          ≡ settled (lift_left c (rotate_left (node red l y (set_black r))) x t)
        → RightCases c d l y r x t
    far :
        is_black l ≡ false
        → round_right c (node d l y r) x t ≡ settled (lift_left c (node d l y r) x t)
        → RightCases c d l y r x t

  pub right-cases :
      (c : Color) (d : Color) (l : Tree A) (y : A) (r : Tree A) (x : A) (t : Tree A)
      → RightCases c d l y r x t
  unfolding round_right
  right-cases c d l y r x t = elim (Bool-cases (is_black l)) [
    | inl e ↦ elim (Bool-cases (is_black r)) [
      | inl f ↦ RightCases.both e f (rw (e, f) refl)
      | inr f ↦ RightCases.near e f (rw (e, f) refl)
    ]
    | inr e ↦ RightCases.far e (rw e refl)
  ]
