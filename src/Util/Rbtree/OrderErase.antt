-- ===== src/Util/Rbtree/OrderErase.antt =====
-- Erasing a node from a red-black tree (src/util/rbtree.c) takes its element out of the sequence of
-- the tree.
use mathlib.Core.List.{append_assoc, append-nil}
use cserv.Prelude.{◌≡◌, refl, sym, ap, ◌∙◌, List, [], ◌∷◌, ◌++◌}
use cserv.Util.Rbtree.Tree.{
  Color, red, black, Tree, leaf, node, Ancestors, top, left_of, right_of, plug, set_black,
  rotate_left, rotate_right,
}
use cserv.Util.Rbtree.Rounds.{LeftCases, left-cases, RightCases, right-cases}
use cserv.Util.Rbtree.Erase.{
  Round, up, settled, lift_left, lift_right, round_left, round_right, turn_left, turn_right, ended,
  rb_erase_color, under, leftmost, recolor, rb_erase,
}
use cserv.Util.Rbtree.Order.{
  inorder, before, after, inorder-plug, plug-cong, inorder-set_black, inorder-rotate_left,
  inorder-rotate_right,
}

module _ {A : Type 0} where
  -- what a round of the loop holds
  abbrev round_tree : Round A → Tree A
  round_tree (up t) = t
  round_tree (settled t) = t
  round_tree (ended t) = t

  inorder-lift_right :
      (c : Color) (t : Tree A) (x : A) (s : Tree A)
      → inorder (lift_right c t x s) ≡ inorder t ++ (x ∷ inorder s)
  unfolding lift_right rotate_left
  inorder-lift_right c t x leaf = refl
  inorder-lift_right c t x (node d l y r) = simp (append_assoc, inorder-set_black)

  inorder-lift_left :
      (c : Color) (s : Tree A) (x : A) (t : Tree A)
      → inorder (lift_left c s x t) ≡ inorder s ++ (x ∷ inorder t)
  unfolding lift_left rotate_right
  inorder-lift_left c leaf x t = refl
  inorder-lift_left c (node d l y r) x t = simp (append_assoc, inorder-set_black)

  inorder-round_left :
      (c : Color) (t : Tree A) (x : A) (s : Tree A)
      → inorder (round_tree (round_left c t x s)) ≡ inorder t ++ (x ∷ inorder s)
  inorder-round_left c t x leaf = unfold round_left in refl
  inorder-round_left c t x (node d l y r) = elim (left-cases c t x d l y r) [
    | LeftCases.both e f g ↦ rw g refl
    | LeftCases.far f g ↦ rw g (inorder-lift_right c t x (node d l y r))
    | LeftCases.near e f g ↦ rw g (
        inorder-lift_right c t x (rotate_right (node red (set_black l) y r))
        ∙ ap (λ w. inorder t ++ (x ∷ w))
            (inorder-rotate_right (node red (set_black l) y r)
              ∙ ap (λ w. w ++ (y ∷ inorder r)) (inorder-set_black l)))
  ]

  inorder-round_right :
      (c : Color) (s : Tree A) (x : A) (t : Tree A)
      → inorder (round_tree (round_right c s x t)) ≡ inorder s ++ (x ∷ inorder t)
  inorder-round_right c leaf x t = unfold round_right in refl
  inorder-round_right c (node d l y r) x t = elim (right-cases c d l y r x t) [
    | RightCases.both e f g ↦ rw g refl
    | RightCases.far f g ↦ rw g (inorder-lift_left c (node d l y r) x t)
    | RightCases.near e f g ↦ rw g (
        inorder-lift_left c (rotate_left (node red l y (set_black r))) x t
        ∙ ap (λ w. w ++ (x ∷ inorder t))
            (inorder-rotate_left (node red l y (set_black r))
              ∙ ap (λ w. inorder l ++ (y ∷ w)) (inorder-set_black r)))
  ]

  inorder-turn_left :
      (c : Color) (t : Tree A) (x : A) (s : Tree A)
      → inorder (round_tree (turn_left c t x s)) ≡ inorder t ++ (x ∷ inorder s)
  unfolding turn_left
  inorder-turn_left c t x leaf = inorder-round_left c t x leaf
  inorder-turn_left c t x (node black l y r) = inorder-round_left c t x (node black l y r)
  inorder-turn_left c t x (node red l y r) =
      below (round_left red t x l) (inorder-round_left red t x l)
    where
      below :
          (t' : Round A)
          → inorder (round_tree t') ≡ inorder t ++ (x ∷ inorder l)
          → inorder (
              round_tree (elim t' [
                | up t' ↦ ended (node black (set_black t') y r)
                | settled t' ↦ settled (node black t' y r)
                | ended t' ↦ ended (node black t' y r)
              ]))
            ≡ inorder t ++ (x ∷ (inorder l ++ (y ∷ inorder r)))
      below (up t') e =
          rw (inorder-set_black t', e) (append_assoc (inorder t) (x ∷ inorder l) (y ∷ inorder r))
      below (settled t') e = rw e (append_assoc (inorder t) (x ∷ inorder l) (y ∷ inorder r))
      below (ended t') e = rw e (append_assoc (inorder t) (x ∷ inorder l) (y ∷ inorder r))

  inorder-turn_right :
      (c : Color) (s : Tree A) (x : A) (t : Tree A)
      → inorder (round_tree (turn_right c s x t)) ≡ inorder s ++ (x ∷ inorder t)
  unfolding turn_right
  inorder-turn_right c leaf x t = inorder-round_right c leaf x t
  inorder-turn_right c (node black l y r) x t = inorder-round_right c (node black l y r) x t
  inorder-turn_right c (node red l y r) x t =
      below (round_right red r x t) (inorder-round_right red r x t)
    where
      below :
          (t' : Round A)
          → inorder (round_tree t') ≡ inorder r ++ (x ∷ inorder t)
          → inorder (
              round_tree (elim t' [
                | up t' ↦ ended (node black l y (set_black t'))
                | settled t' ↦ settled (node black l y t')
                | ended t' ↦ ended (node black l y t')
              ]))
            ≡ (inorder l ++ (y ∷ inorder r)) ++ (x ∷ inorder t)
      below (up t') e =
          rw (inorder-set_black t', e)
            (sym (append_assoc (inorder l) (y ∷ inorder r) (x ∷ inorder t)))
      below (settled t') e = rw e (sym (append_assoc (inorder l) (y ∷ inorder r) (x ∷ inorder t)))
      below (ended t') e = rw e (sym (append_assoc (inorder l) (y ∷ inorder r) (x ∷ inorder t)))

  -- what follows a round
  abbrev pub next_round : Ancestors A → Round A → Tree A
  next_round p (up t) = rb_erase_color t p
  next_round p (settled t) = set_black (plug p t)
  next_round p (ended t) = plug p t

  inorder-next_round :
      (p : Ancestors A)
      → ((t : Tree A) → inorder (rb_erase_color t p) ≡ inorder (plug p t))
      → (t : Round A) → inorder (next_round p t) ≡ inorder (plug p (round_tree t))
  inorder-next_round p ih (up t) = ih t
  inorder-next_round p ih (settled t) = inorder-set_black (plug p t)
  inorder-next_round p ih (ended t) = refl

  inorder-rb_erase_color :
      (t : Tree A) (p : Ancestors A) → inorder (rb_erase_color t p) ≡ inorder (plug p t)
  unfolding rb_erase_color plug
  inorder-rb_erase_color (node red l x r) p = plug-cong p _ _ refl
  inorder-rb_erase_color leaf top = refl
  inorder-rb_erase_color (node black l x r) top = refl
  inorder-rb_erase_color leaf (left_of c x s p) =
      inorder-next_round p (λ t. inorder-rb_erase_color t p) (turn_left c leaf x s)
      ∙ plug-cong p _ _ (inorder-turn_left c leaf x s)
  inorder-rb_erase_color (node black l y r) (left_of c x s p) =
      inorder-next_round p (λ t. inorder-rb_erase_color t p) (turn_left c (node black l y r) x s)
      ∙ plug-cong p _ _ (inorder-turn_left c (node black l y r) x s)
  inorder-rb_erase_color leaf (right_of c s x p) =
      inorder-next_round p (λ t. inorder-rb_erase_color t p) (turn_right c s x leaf)
      ∙ plug-cong p _ _ (inorder-turn_right c s x leaf)
  inorder-rb_erase_color (node black l y r) (right_of c s x p) =
      inorder-next_round p (λ t. inorder-rb_erase_color t p) (turn_right c s x (node black l y r))
      ∙ plug-cong p _ _ (inorder-turn_right c s x (node black l y r))

  inorder-recolor :
      (c : Color) (t : Tree A) (p : Ancestors A) → inorder (recolor c t p) ≡ inorder (plug p t)
  unfolding recolor
  inorder-recolor red t p = refl
  inorder-recolor black t p = inorder-rb_erase_color t p

  before-under : (s p : Ancestors A) → before (under s p) ≡ before p ++ before s
  unfolding under
  before-under top p = sym (append-nil (before p))
  before-under (left_of c x r s) p = before-under s p
  before-under (right_of c l x s) p =
      ap (λ w. w ++ (inorder l ++ (x ∷ []))) (before-under s p)
      ∙ append_assoc (before p) (before s) (inorder l ++ (x ∷ []))

  after-under : (s p : Ancestors A) → after (under s p) ≡ after s ++ after p
  unfolding under
  after-under top p = refl
  after-under (left_of c x r s) p =
      ap (λ w. x ∷ (inorder r ++ w)) (after-under s p)
      ∙ ap (λ w. x ∷ w) (sym (append_assoc (inorder r) (after s) (after p)))
  after-under (right_of c l x s) p = after-under s p

  -- the leftmost node is the first in order: nothing is in front of it
  pub inorder-leftmost :
      (c : Color) (l : Tree A) (x : A) (r : Tree A) (p : Ancestors A)
      → (before (leftmost c l x r p).spine ≡ before p)
        × ((leftmost c l x r p).item
              ∷ (inorder (leftmost c l x r p).child ++ after (leftmost c l x r p).spine)
            ≡ inorder (node c l x r) ++ after p)
  unfolding leftmost
  inorder-leftmost c leaf x r p = (refl, refl)
  inorder-leftmost c (node d ll y lr) x r p =
      let (b, a) = inorder-leftmost d ll y lr (left_of c x r p) in
      (b, a ∙ sym (append_assoc (inorder (node d ll y lr)) (x ∷ inorder r) (after p)))

  inorder-replaced :
      (b il ch af aft : List A) (z : A) (rest : List A)
      → z ∷ (ch ++ af) ≡ rest ++ []
      → (b ++ (il ++ (z ∷ []))) ++ (ch ++ (af ++ aft)) ≡ (b ++ il) ++ (rest ++ aft)
  inorder-replaced b il ch af aft z rest e =
      let inner : z ∷ (ch ++ (af ++ aft)) ≡ rest ++ aft =
        ap (λ w. z ∷ w) (sym (append_assoc ch af aft)) ∙ ap (λ w. w ++ aft) (e ∙ append-nil rest) in
      append_assoc b (il ++ (z ∷ [])) (ch ++ (af ++ aft))
      ∙ ap (λ w. b ++ w) (append_assoc il (z ∷ []) (ch ++ (af ++ aft)) ∙ ap (λ w. il ++ w) inner)
      ∙ sym (append_assoc b il (rest ++ aft))

  inorder-rb_erase :
      (c : Color) (l : Tree A) (x : A) (r : Tree A) (p : Ancestors A)
      → inorder (rb_erase c l x r p) ≡ (before p ++ inorder l) ++ (inorder r ++ after p)
  unfolding rb_erase
  inorder-rb_erase c leaf x r p =
      inorder-recolor c r p
      ∙ inorder-plug p r
      ∙ ap (λ w. w ++ (inorder r ++ after p)) (sym (append-nil (before p)))
  inorder-rb_erase c (node e ll y lr) x leaf p =
      inorder-recolor c (node e ll y lr) p
      ∙ inorder-plug p (node e ll y lr)
      ∙ sym (append_assoc (before p) (inorder (node e ll y lr)) (after p))
  inorder-rb_erase c (node e ll z lr) x (node d rl y rr) p =
      let l : Tree A = node e ll z lr in
      let next = leftmost d rl y rr top in
      let q : Ancestors A = right_of c l next.item p in
      let (b, a) = inorder-leftmost d rl y rr top in
      inorder-recolor next.color next.child (under next.spine q)
      ∙ inorder-plug (under next.spine q) next.child
      ∙ ap (λ w. w ++ (inorder next.child ++ after (under next.spine q)))
          (before-under next.spine q ∙ ap (λ w. before q ++ w) b ∙ append-nil (before q))
      ∙ ap (λ w. before q ++ (inorder next.child ++ w)) (after-under next.spine q)
      ∙ inorder-replaced (before p) (inorder l) (inorder next.child) (after next.spine) (after p)
          next.item (inorder (node d rl y rr)) a

  -- `rb_erase` takes the element of the node out of the tree, and leaves all the others in order.
  pub rb_erase-inorder :
      (c : Color) (l : Tree A) (x : A) (r : Tree A) (p : Ancestors A)
      → (inorder (plug p (node c l x r)) ≡ (before p ++ inorder l) ++ (x ∷ (inorder r ++ after p)))
        × (inorder (rb_erase c l x r p) ≡ (before p ++ inorder l) ++ (inorder r ++ after p))
  rb_erase-inorder c l x r p =
      (inorder-plug p (node c l x r) ∙ simp append_assoc, inorder-rb_erase c l x r p)
