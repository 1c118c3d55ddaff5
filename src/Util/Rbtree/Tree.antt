-- ===== src/Util/Rbtree/Tree.antt =====
-- The nodes of src/util/rbtree.h, and the rotations of src/util/rbtree.c.
use cserv.Prelude.{Option, none, some}

pub data Color : Type 0 where
  red black : Color

-- `struct rb_node` with what it is embedded in, and its children; `leaf` is NULL. The parents are
-- not stored: they are on the path.
pub data Tree (A : Type 0) : Type 0 where
  leaf : Tree A
  node : Color → Tree A → A → Tree A → Tree A

-- The ancestors of a node, its parent first: `left_of c x r p` says that the node is the left child
-- of a node of the color `c` with the right child `r`, whose own ancestors are `p`.
pub data Ancestors (A : Type 0) : Type 0 where
  top : Ancestors A
  left_of : Color → A → Tree A → Ancestors A → Ancestors A
  right_of : Color → Tree A → A → Ancestors A → Ancestors A

module _ {A : Type 0} where
  -- the root of the tree
  unfoldable pub plug : Ancestors A → Tree A → Tree A
  plug top t = t
  plug (left_of c x r p) t = plug p (node c t x r)
  plug (right_of c l x p) t = plug p (node c l x t)

  -- `rb_set_black`, and the test in front of it
  abbrev pub set_black : Tree A → Tree A
  set_black leaf = leaf
  set_black (node c l x r) = node black l x r

  -- `__rb_rotate_left`, at the node that is rotated; a rotation without a right child is undefined
  unfoldable pub rotate_left : Tree A → Tree A
  rotate_left (node c l x (node d rl y rr)) = node d (node c l x rl) y rr
  rotate_left t = t

  -- `__rb_rotate_right`
  unfoldable pub rotate_right : Tree A → Tree A
  rotate_right (node c (node d ll y lr) x r) = node d ll y (node c lr x r)
  rotate_right t = t

  unfoldable pub rb_first : Tree A → Option A
  rb_first leaf = none
  rb_first (node c leaf x r) = some x
  rb_first (node c (node d ll y lr) x r) = rb_first (node d ll y lr)
