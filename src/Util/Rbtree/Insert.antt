-- ===== src/Util/Rbtree/Insert.antt =====
-- `rb_link_node` (src/util/rbtree.h) and `rb_insert_color` (src/util/rbtree.c).
use cserv.Util.Rbtree.Tree.{
  red, black, Tree, leaf, node, Ancestors, top, left_of, right_of, plug, set_black, rotate_left,
  rotate_right,
}

module _ {A : Type 0} where
  -- The parent (`c`, `x`) is the left child of its parent and red, and the uncle is not red. The
  -- node is the left child: the grandparent is rotated to the right. What comes out stands in the
  -- place of the grandparent.
  unfoldable pub rise_left : Tree A → A → Tree A → Tree A
  rise_left parent gx uncle = rotate_right (node red (set_black parent) gx uncle)

  unfoldable pub rise_right : Tree A → A → Tree A → Tree A
  rise_right uncle gx parent = rotate_left (node red uncle gx (set_black parent))

  -- The loop of `rb_insert_color` from `node` on, as far as the root, which is not yet black. Under
  -- a red root there is nothing that the code could do: it would read a parent that is NULL.
  unfoldable pub insert_loop : Tree A → Ancestors A → Tree A
  insert_loop t top = t
  insert_loop t (left_of black x r p) = plug (left_of black x r p) t
  insert_loop t (right_of black l x p) = plug (right_of black l x p) t
  insert_loop t (left_of red x r top) = plug (left_of red x r top) t
  insert_loop t (right_of red l x top) = plug (right_of red l x top) t
  insert_loop t (left_of red x r (left_of gc gx (node red ul u ur) gp)) =
      insert_loop (node red (node black t x r) gx (node black ul u ur)) gp
  insert_loop t (left_of red x r (left_of gc gx uncle gp)) =
      plug gp (rise_left (node red t x r) gx uncle)
  insert_loop t (right_of red l x (left_of gc gx (node red ul u ur) gp)) =
      insert_loop (node red (node black l x t) gx (node black ul u ur)) gp
  insert_loop t (right_of red l x (left_of gc gx uncle gp)) =
      plug gp (rise_left (rotate_left (node red l x t)) gx uncle)
  insert_loop t (right_of red l x (right_of gc (node red ul u ur) gx gp)) =
      insert_loop (node red (node black ul u ur) gx (node black l x t)) gp
  insert_loop t (right_of red l x (right_of gc uncle gx gp)) =
      plug gp (rise_right uncle gx (node red l x t))
  insert_loop t (left_of red x r (right_of gc (node red ul u ur) gx gp)) =
      insert_loop (node red (node black ul u ur) gx (node black t x r)) gp
  insert_loop t (left_of red x r (right_of gc uncle gx gp)) =
      plug gp (rise_right uncle gx (rotate_right (node red t x r)))

  -- the whole function
  unfoldable pub rb_insert_color : Tree A → Ancestors A → Tree A
  rb_insert_color t p = set_black (insert_loop t p)

  -- `rb_link_node`: the new node is red (the address of its parent has a clear lowest bit), and has
  -- no children.
  unfoldable pub rb_link_node : A → Tree A
  rb_link_node x = node red leaf x leaf
