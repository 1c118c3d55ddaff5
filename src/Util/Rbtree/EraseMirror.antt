-- ===== src/Util/Rbtree/EraseMirror.antt =====
-- The mirror image: the rounds of `__rb_erase_color` (src/util/rbtree.c) whose node is the right
-- child.
use cserv.Prelude.{ℕ, suc, ◌≡◌, refl, arith, true, false}
use cserv.Util.Rbtree.Tree.{
  Color, red, black, Tree, leaf, node, Ancestors, right_of, set_black, rotate_left, rotate_right,
}
use cserv.Util.Rbtree.Erase.{
  is_black, Round, up, settled, ended, lift_left, round_right, turn_right,
}
use cserv.Util.Rbtree.Rounds.{RightCases, right-cases}
use cserv.Util.Rbtree.Colors.{Alternates, HasHeight, PathAlternates, PathHeight}
use cserv.Util.Rbtree.EraseColors.{MayStand, Restores}

module _ {A : Type 0} where
  lift_left-far :
      (c : Color) (l : Tree A) (y : A) (r : Tree A) (x : A) (t : Tree A) (n : ℕ) (p : Ancestors A)
      → Alternates t
      → HasHeight t n
      → is_black l ≡ false
      → Alternates l × Alternates r
      → HasHeight l n × HasHeight r n
      → MayStand c p
      → Restores c n p (settled (lift_left c (node black l y r) x t))
  unfolding lift_left rotate_right
  lift_left-far c leaf y r x t n p a h e sa hs f = absurd (ground arith)
  lift_left-far c (node black ll z lr) y r x t n p a h e sa hs f = absurd (ground arith)
  lift_left-far red (node red ll z lr) y r x t n p a h e sa hs f = ground arith
  lift_left-far black (node red ll z lr) y r x t n p a h e sa hs f = ground arith

  lift_left-near :
      (c : Color) (l : Tree A) (y : A) (r : Tree A) (x : A) (t : Tree A) (n : ℕ) (p : Ancestors A)
      → Alternates t
      → HasHeight t n
      → is_black r ≡ false
      → Alternates l × Alternates r
      → HasHeight l n × HasHeight r n
      → MayStand c p
      → Restores c n p (settled (lift_left c (rotate_left (node red l y (set_black r))) x t))
  unfolding lift_left rotate_left rotate_right
  lift_left-near c l y leaf x t n p a h e sa hs f = absurd (ground arith)
  lift_left-near c l y (node black rl z rr) x t n p a h e sa hs f = absurd (ground arith)
  lift_left-near red l y (node red rl z rr) x t n p a h e sa hs f = ground arith
  lift_left-near black l y (node red rl z rr) x t n p a h e sa hs f = ground arith

  raised_right-Restores :
      (c : Color) (l : Tree A) (y : A) (r : Tree A) (x : A) (t : Tree A) (n : ℕ) (p : Ancestors A)
      → Alternates t
      → HasHeight t n
      → is_black l ≡ true
      → is_black r ≡ true
      → Alternates l × Alternates r
      → HasHeight l n × HasHeight r n
      → Restores c n p (up (node c (node red l y r) x t))
  raised_right-Restores red l y r x t n p a h e e' sa hs = ground arith
  raised_right-Restores black l y r x t n p a h e e' sa hs = ground arith

  round_right-Restores :
      (c : Color) (s : Tree A) (x : A) (t : Tree A) (n : ℕ) (p : Ancestors A)
      → Alternates t
      → HasHeight t n
      → is_black s ≡ true
      → Alternates s
      → HasHeight s (suc n)
      → MayStand c p
      → Restores c n p (round_right c s x t)
  round_right-Restores c leaf x t n p a h bs sa hs f = absurd (ground arith)
  round_right-Restores c (node red l y r) x t n p a h bs sa hs f = absurd (ground arith)
  round_right-Restores c (node black l y r) x t n p a h bs sa hs f =
      elim (right-cases c black l y r x t) [
        | RightCases.both e e' g ↦ rw g (raised_right-Restores c l y r x t n p a h e e' sa hs)
        | RightCases.far e g ↦ rw g (lift_left-far c l y r x t n p a h e sa hs f)
        | RightCases.near e e' g ↦ rw g (lift_left-near c l y r x t n p a h e' sa hs f)
      ]

  pub turn_right-Restores :
      (c : Color) (s : Tree A) (x : A) (t : Tree A) (p : Ancestors A) (n m : ℕ)
      → Alternates t
      → HasHeight t n
      → PathAlternates (right_of c s x p)
      → PathHeight (right_of c s x p) (suc n) m
      → Restores c n p (turn_right c s x t)
  unfolding turn_right
  turn_right-Restores red leaf x t p n m a h pa ph = absurd (ground arith)
  turn_right-Restores black leaf x t p n m a h pa ph = absurd (ground arith)
  turn_right-Restores red (node black l y r) x t p n m a h pa ph =
      round_right-Restores red (node black l y r) x t n p a h refl pa.2 ph.0 pa.1
  turn_right-Restores black (node black l y r) x t p n m a h pa ph =
      round_right-Restores black (node black l y r) x t n p a h refl pa.0 ph.0 tt
  turn_right-Restores red (node red l y r) x t p n m a h pa ph = absurd (ground arith)
  turn_right-Restores black (node red l y r) x t p n m a h pa ph = below (round_right red r x t) (
      round_right-Restores red r x t n (right_of black l y p) a h (ground arith) (ground arith)
        (ground arith) tt)
    where
      below :
          (t' : Round A)
          → Restores red n (right_of black l y p) t'
          → Restores black n p (elim t' [
            | up t' ↦ ended (node black l y (set_black t'))
            | settled t' ↦ settled (node black l y t')
            | ended t' ↦ ended (node black l y t')
          ])
      below (up t') e = ground arith
      below (settled t') e = ground arith
      below (ended t') e = ground arith
