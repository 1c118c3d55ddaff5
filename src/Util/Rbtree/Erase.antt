-- ===== src/Util/Rbtree/Erase.antt =====
-- `rb_erase` and `__rb_erase_color` of src/util/rbtree.c.
use cserv.Prelude.{Bool, true, false, ◌&&◌, if◌then◌else◌}
use cserv.Util.Rbtree.Tree.{
  Color, red, black, Tree, leaf, node, Ancestors, top, left_of, right_of, plug, set_black,
  rotate_left, rotate_right,
}

-- What a round of the loop of `__rb_erase_color` makes of the parent and what is below it: either
-- the loop goes on with the parent as its node, or it ends with `node = root->rb_node`, or it ends
-- at a red node that has become black.
pub data Round (A : Type 0) : Type 0 where
  up : Tree A → Round A
  settled : Tree A → Round A
  ended : Tree A → Round A

-- The way down to the leftmost node of `node c l x r`: its color, what it holds, its right child
-- and its ancestors.
pub record Leftmost (A : Type 0) : Type 0 where
  pub color : Color
  pub item : A
  pub child : Tree A
  pub spine : Ancestors A

module _ {A : Type 0} where
  -- `!node || rb_is_black(node)`
  abbrev pub is_black : Tree A → Bool
  is_black (node red l x r) = false
  is_black _ = true

  -- The last steps with `node` as the left child: the sibling gets the color of the parent, and the
  -- parent and the sibling's right child are black before the rotation.
  unfoldable pub lift_right : Color → Tree A → A → Tree A → Tree A
  lift_right c t x leaf = node c t x leaf
  lift_right c t x (node d l y r) = rotate_left (node black t x (node c l y (set_black r)))

  unfoldable pub lift_left : Color → Tree A → A → Tree A → Tree A
  lift_left c leaf x t = node c leaf x t
  lift_left c (node d l y r) x t = rotate_right (node black (node c (set_black l) y r) x t)

  -- A round whose `node` is the left child, from the second `if` on: the sibling is black. The code
  -- reads the sibling's children, so a sibling that is NULL is undefined.
  unfoldable pub round_left : Color → Tree A → A → Tree A → Round A
  round_left c t x leaf = settled (node c t x leaf)
  round_left c t x (node d l y r) =
      if is_black l && is_black r
      then up (node c t x (node red l y r))
      else if is_black r
      then settled (lift_right c t x (rotate_right (node red (set_black l) y r)))
      else settled (lift_right c t x (node d l y r))

  unfoldable pub round_right : Color → Tree A → A → Tree A → Round A
  round_right c leaf x t = settled (node c leaf x t)
  round_right c (node d l y r) x t =
      if is_black l && is_black r
      then up (node c (node red l y r) x t)
      else if is_black l
      then settled (lift_left c (rotate_left (node red l y (set_black r))) x t)
      else settled (lift_left c (node d l y r) x t)

  -- When the sibling was red, the parent is red by then: should the loop go on with the parent, its
  -- test ends it, and the parent becomes black.
  unfoldable pub turn_left : Color → Tree A → A → Tree A → Round A
  turn_left c t x (node red l y r) = elim (round_left red t x l) [
    | up t' ↦ ended (node black (set_black t') y r)
    | settled t' ↦ settled (node black t' y r)
    | ended t' ↦ ended (node black t' y r)
  ]
  turn_left c t x sibling = round_left c t x sibling

  unfoldable pub turn_right : Color → Tree A → A → Tree A → Round A
  turn_right c (node red l y r) x t = elim (round_right red r x t) [
    | up t' ↦ ended (node black l y (set_black t'))
    | settled t' ↦ settled (node black l y t')
    | ended t' ↦ ended (node black l y t')
  ]
  turn_right c sibling x t = round_right c sibling x t

  -- `__rb_erase_color`, with the child and its ancestors
  unfoldable pub rb_erase_color : Tree A → Ancestors A → Tree A
  rb_erase_color (node red l x r) p = plug p (node black l x r)
  rb_erase_color t top = set_black t
  rb_erase_color t (left_of c x sibling p) = elim (turn_left c t x sibling) [
    | up t' ↦ rb_erase_color t' p
    | settled t' ↦ set_black (plug p t')
    | ended t' ↦ plug p t'
  ]
  rb_erase_color t (right_of c sibling x p) = elim (turn_right c sibling x t) [
    | up t' ↦ rb_erase_color t' p
    | settled t' ↦ set_black (plug p t')
    | ended t' ↦ plug p t'
  ]

  -- the ancestors in `spine`, the last of which stands under `p`
  unfoldable pub under : Ancestors A → Ancestors A → Ancestors A
  under top p = p
  under (left_of c x r spine) p = left_of c x r (under spine p)
  under (right_of c l x spine) p = right_of c l x (under spine p)

  unfoldable pub leftmost : Color → Tree A → A → Tree A → Ancestors A → Leftmost A
  leftmost c leaf x r p = record { color = c; item = x; child = r; spine = p }
  leftmost c (node d ll y lr) x r p = leftmost d ll y lr (left_of c x r p)

  -- what stands behind the label `out`
  unfoldable pub recolor : Color → Tree A → Ancestors A → Tree A
  recolor red child p = plug p child
  recolor black child p = rb_erase_color child p

  -- `rb_erase` of a node with these fields and ancestors. With two children, the next node in order
  -- is taken out of its place and put, with the color of the old node, where that one stood.
  unfoldable pub rb_erase : Color → Tree A → A → Tree A → Ancestors A → Tree A
  rb_erase c leaf x r p = recolor c r p
  rb_erase c l x leaf p = recolor c l p
  rb_erase c l x (node d rl y rr) p =
      let next = leftmost d rl y rr top in
      recolor next.color next.child (under next.spine (right_of c l next.item p))
