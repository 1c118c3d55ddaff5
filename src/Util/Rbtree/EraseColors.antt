-- ===== src/Util/Rbtree/EraseColors.antt =====
-- The loop of `__rb_erase_color` (src/util/rbtree.c) restores the invariant of a red-black tree.
use cserv.Prelude.{ℕ, suc, ◌≡◌, refl, arith, true, false}
use cserv.Util.Rbtree.Tree.{
  Color, red, black, Tree, leaf, node, Ancestors, left_of, set_black, rotate_left, rotate_right,
}
use cserv.Util.Rbtree.Erase.{is_black, Round, up, settled, ended, lift_right, round_left, turn_left}
use cserv.Util.Rbtree.Rounds.{LeftCases, left-cases}
use cserv.Util.Rbtree.Colors.{Alternates, HasHeight, BlackAbove, PathAlternates, PathHeight, Fits}

-- the height of a tree with a root of the color `c`, over subtrees of the height `n`
abbrev pub over : Color → ℕ → ℕ
over red n = n
over black n = suc n

module _ {A : Type 0} where
  -- a node of this color may stand below these ancestors
  abbrev pub MayStand : Color → Ancestors A → Type 0
  MayStand red p = BlackAbove p
  MayStand black p = Unit

  -- A round at a parent of the color `c`, whose one child has the height `n` and lacks one: the
  -- tree has the height that is wanted below `p`, or lacks one still.
  abbrev pub Restores : Color → ℕ → Ancestors A → Round A → Type 0
  Restores c n p (up t) =
      Alternates (set_black t) × HasHeight t (over c n) × HasHeight (set_black t) (suc n)
  Restores c n p (settled t) = Alternates t × HasHeight t (suc (over c n)) × Fits t p
  Restores c n p (ended t) = Alternates t × HasHeight t (suc (over c n)) × Fits t p

  lift_right-far :
      (c : Color) (t : Tree A) (x : A) (l : Tree A) (y : A) (r : Tree A) (n : ℕ) (p : Ancestors A)
      → Alternates t
      → HasHeight t n
      → is_black r ≡ false
      → Alternates l × Alternates r
      → HasHeight l n × HasHeight r n
      → MayStand c p
      → Restores c n p (settled (lift_right c t x (node black l y r)))
  unfolding lift_right rotate_left
  lift_right-far c t x l y leaf n p a h e sa hs f = absurd (ground arith)
  lift_right-far c t x l y (node black rl z rr) n p a h e sa hs f = absurd (ground arith)
  lift_right-far red t x l y (node red rl z rr) n p a h e sa hs f = ground arith
  lift_right-far black t x l y (node red rl z rr) n p a h e sa hs f = ground arith

  lift_right-near :
      (c : Color) (t : Tree A) (x : A) (l : Tree A) (y : A) (r : Tree A) (n : ℕ) (p : Ancestors A)
      → Alternates t
      → HasHeight t n
      → is_black l ≡ false
      → Alternates l × Alternates r
      → HasHeight l n × HasHeight r n
      → MayStand c p
      → Restores c n p (settled (lift_right c t x (rotate_right (node red (set_black l) y r))))
  unfolding lift_right rotate_left rotate_right
  lift_right-near c t x leaf y r n p a h e sa hs f = absurd (ground arith)
  lift_right-near c t x (node black ll z lr) y r n p a h e sa hs f = absurd (ground arith)
  lift_right-near red t x (node red ll z lr) y r n p a h e sa hs f = ground arith
  lift_right-near black t x (node red ll z lr) y r n p a h e sa hs f = ground arith

  raised-Restores :
      (c : Color) (t : Tree A) (x : A) (l : Tree A) (y : A) (r : Tree A) (n : ℕ) (p : Ancestors A)
      → Alternates t
      → HasHeight t n
      → is_black l ≡ true
      → is_black r ≡ true
      → Alternates l × Alternates r
      → HasHeight l n × HasHeight r n
      → Restores c n p (up (node c t x (node red l y r)))
  raised-Restores red t x l y r n p a h e e' sa hs = ground arith
  raised-Restores black t x l y r n p a h e e' sa hs = ground arith

  round_left-Restores :
      (c : Color) (t : Tree A) (x : A) (s : Tree A) (n : ℕ) (p : Ancestors A)
      → Alternates t
      → HasHeight t n
      → is_black s ≡ true
      → Alternates s
      → HasHeight s (suc n)
      → MayStand c p
      → Restores c n p (round_left c t x s)
  round_left-Restores c t x leaf n p a h bs sa hs f = absurd (ground arith)
  round_left-Restores c t x (node red l y r) n p a h bs sa hs f = absurd (ground arith)
  round_left-Restores c t x (node black l y r) n p a h bs sa hs f =
      elim (left-cases c t x black l y r) [
        | LeftCases.both e e' g ↦ rw g (raised-Restores c t x l y r n p a h e e' sa hs)
        | LeftCases.far e g ↦ rw g (lift_right-far c t x l y r n p a h e sa hs f)
        | LeftCases.near e e' g ↦ rw g (lift_right-near c t x l y r n p a h e sa hs f)
      ]

  pub turn_left-Restores :
      (c : Color) (t : Tree A) (x : A) (s : Tree A) (p : Ancestors A) (n m : ℕ)
      → Alternates t
      → HasHeight t n
      → PathAlternates (left_of c x s p)
      → PathHeight (left_of c x s p) (suc n) m
      → Restores c n p (turn_left c t x s)
  unfolding turn_left
  turn_left-Restores red t x leaf p n m a h pa ph = absurd (ground arith)
  turn_left-Restores black t x leaf p n m a h pa ph = absurd (ground arith)
  turn_left-Restores red t x (node black l y r) p n m a h pa ph =
      round_left-Restores red t x (node black l y r) n p a h refl pa.2 ph.0 pa.1
  turn_left-Restores black t x (node black l y r) p n m a h pa ph =
      round_left-Restores black t x (node black l y r) n p a h refl pa.0 ph.0 tt
  turn_left-Restores red t x (node red l y r) p n m a h pa ph = absurd (ground arith)
  turn_left-Restores black t x (node red l y r) p n m a h pa ph = below (round_left red t x l) (
      round_left-Restores red t x l n (left_of black y r p) a h (ground arith) (ground arith)
        (ground arith) tt)
    where
      below :
          (t' : Round A)
          → Restores red n (left_of black y r p) t'
          → Restores black n p (elim t' [
            | up t' ↦ ended (node black (set_black t') y r)
            | settled t' ↦ settled (node black t' y r)
            | ended t' ↦ ended (node black t' y r)
          ])
      below (up t') e = ground arith
      below (settled t') e = ground arith
      below (ended t') e = ground arith
