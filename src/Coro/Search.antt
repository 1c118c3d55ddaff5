-- ===== src/Coro/Search.antt =====
-- The searches in red-black trees of src/coro/sched.c: each of its loops compares a key and goes to
-- the left or to the right.
use cserv.Prelude.{ℕ, Option, none, some, compare, Ordering}
use cserv.Util.Rbtree.Tree.{Color, Tree, leaf, node, Ancestors, left_of, right_of}
use cserv.Util.Rbtree.Erase.{rb_erase}

-- a node of a tree, with its ancestors
pub record Focus (A : Type 0) : Type 0 where
  pub color : Color
  pub left : Tree A
  pub item : A
  pub right : Tree A
  pub path : Ancestors A

module _ {A : Type 0} (key : A → ℕ) where
  -- the loop of `find_in_timer` and of `find_timer_node`
  unfoldable pub locate : ℕ → Tree A → Ancestors A → Option (Focus A)
  locate k leaf p = none
  locate k (node c l y r) p = elim (compare k (key y)) [
    | Ordering.lt ↦ locate k l (left_of c y r p)
    | Ordering.gt ↦ locate k r (right_of c l y p)
    | Ordering.eq ↦ some (record { color = c; left = l; item = y; right = r; path = p })
  ]

  -- The loop of `add_to_timer_node`: the place of a new node.
  unfoldable pub descend : ℕ → Tree A → Ancestors A → Ancestors A
  descend k leaf p = p
  descend k (node c l y r) p = elim (compare k (key y)) [
    | Ordering.lt ↦ descend k l (left_of c y r p)
    | _ ↦ descend k r (right_of c l y p)
  ]

module _ {A : Type 0} where
  -- `rb_erase` of the node
  abbrev pub erase_at : Focus A → Tree A
  erase_at f = rb_erase f.color f.left f.item f.right f.path
