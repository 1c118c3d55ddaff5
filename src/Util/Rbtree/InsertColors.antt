-- ===== src/Util/Rbtree/InsertColors.antt =====
-- `rb_insert_color` (src/util/rbtree.c) keeps the invariant of a red-black tree.
use cserv.Prelude.{ℕ, suc, refl, arith}
use cserv.Util.Rbtree.Tree.{
  red, black, Tree, leaf, node, Ancestors, top, left_of, right_of, set_black, rotate_left,
  rotate_right,
}
use cserv.Util.Rbtree.Insert.{rise_left, rise_right, insert_loop, rb_insert_color, rb_link_node}
use cserv.Util.Rbtree.Colors.{
  Alternates, HasHeight, IsValid, PathAlternates, PathHeight, plug-IsValid, set_black-IsValid,
  root-IsValid,
}

module _ {A : Type 0} where
  insert_loop-IsValid :
      (l : Tree A) (x : A) (r : Tree A) (p : Ancestors A) (n m : ℕ)
      → Alternates (node red l x r)
      → PathAlternates p
      → HasHeight (node red l x r) n
      → PathHeight p n m
      → IsValid (set_black (insert_loop (node red l x r) p))
  unfolding insert_loop rise_left rise_right rotate_left rotate_right
  insert_loop-IsValid l x r top n m a pa h ph = root-IsValid (node red l x r) n a h
  insert_loop-IsValid l x r (left_of black y s p) n m a pa h ph =
      set_black-IsValid _ (plug-IsValid (left_of black y s p) (node red l x r) n m a tt pa h ph)
  insert_loop-IsValid l x r (right_of black s y p) n m a pa h ph =
      set_black-IsValid _ (plug-IsValid (right_of black s y p) (node red l x r) n m a tt pa h ph)
  insert_loop-IsValid l x r (left_of red y s top) n m a pa h ph = absurd pa.1
  insert_loop-IsValid l x r (right_of red s y top) n m a pa h ph = absurd pa.1
  insert_loop-IsValid l x r (left_of red y s (left_of black gx (node red ul u ur) gp)) n m a pa h
        ph =
      insert_loop-IsValid (node black (node red l x r) y s) gx (node black ul u ur) gp (suc n) m
        (ground arith) (ground arith) (ground arith) (ground arith)
  insert_loop-IsValid l x r (left_of red y s (left_of black gx leaf gp)) n m a pa h ph =
      set_black-IsValid _ (
        plug-IsValid gp (node black (node red l x r) y (node red s gx leaf)) (suc n) m
          (ground arith) tt (ground arith) (ground arith) (ground arith))
  insert_loop-IsValid l x r (left_of red y s (left_of black gx (node black ul u ur) gp)) n m a pa h
        ph =
      set_black-IsValid _ (
        plug-IsValid gp (node black (node red l x r) y (node red s gx (node black ul u ur))) (suc n)
          m (ground arith) tt (ground arith) (ground arith) (ground arith))
  insert_loop-IsValid l x r (left_of red y s (left_of red gx uncle gp)) n m a pa h ph = absurd pa.1
  insert_loop-IsValid l x r (right_of red s y (left_of black gx (node red ul u ur) gp)) n m a pa h
        ph =
      insert_loop-IsValid (node black s y (node red l x r)) gx (node black ul u ur) gp (suc n) m
        (ground arith) (ground arith) (ground arith) (ground arith)
  insert_loop-IsValid l x r (right_of red s y (left_of black gx leaf gp)) n m a pa h ph =
      set_black-IsValid _ (
        plug-IsValid gp (node black (node red s y l) x (node red r gx leaf)) (suc n) m
          (ground arith) tt (ground arith) (ground arith) (ground arith))
  insert_loop-IsValid l x r (right_of red s y (left_of black gx (node black ul u ur) gp)) n m a pa h
        ph =
      set_black-IsValid _ (
        plug-IsValid gp (node black (node red s y l) x (node red r gx (node black ul u ur))) (suc n)
          m (ground arith) tt (ground arith) (ground arith) (ground arith))
  insert_loop-IsValid l x r (right_of red s y (left_of red gx uncle gp)) n m a pa h ph = absurd pa.1
  insert_loop-IsValid l x r (right_of red s y (right_of black (node red ul u ur) gx gp)) n m a pa h
        ph =
      insert_loop-IsValid (node black ul u ur) gx (node black s y (node red l x r)) gp (suc n) m
        (ground arith) (ground arith) (ground arith) (ground arith)
  insert_loop-IsValid l x r (right_of red s y (right_of black leaf gx gp)) n m a pa h ph =
      set_black-IsValid _ (
        plug-IsValid gp (node black (node red leaf gx s) y (node red l x r)) (suc n) m
          (ground arith) tt (ground arith) (ground arith) (ground arith))
  insert_loop-IsValid l x r (right_of red s y (right_of black (node black ul u ur) gx gp)) n m a pa
        h ph =
      set_black-IsValid _ (
        plug-IsValid gp (node black (node red (node black ul u ur) gx s) y (node red l x r)) (suc n)
          m (ground arith) tt (ground arith) (ground arith) (ground arith))
  insert_loop-IsValid l x r (right_of red s y (right_of red uncle gx gp)) n m a pa h ph =
      absurd pa.1
  insert_loop-IsValid l x r (left_of red y s (right_of black (node red ul u ur) gx gp)) n m a pa h
        ph =
      insert_loop-IsValid (node black ul u ur) gx (node black (node red l x r) y s) gp (suc n) m
        (ground arith) (ground arith) (ground arith) (ground arith)
  insert_loop-IsValid l x r (left_of red y s (right_of black leaf gx gp)) n m a pa h ph =
      set_black-IsValid _ (
        plug-IsValid gp (node black (node red leaf gx l) x (node red r y s)) (suc n) m
          (ground arith) tt (ground arith) (ground arith) (ground arith))
  insert_loop-IsValid l x r (left_of red y s (right_of black (node black ul u ur) gx gp)) n m a pa h
        ph =
      set_black-IsValid _ (
        plug-IsValid gp (node black (node red (node black ul u ur) gx l) x (node red r y s)) (suc n)
          m (ground arith) tt (ground arith) (ground arith) (ground arith))
  insert_loop-IsValid l x r (left_of red y s (right_of red uncle gx gp)) n m a pa h ph = absurd pa.1

  -- Inserted under ancestors of a valid tree, where nothing was before, a node leaves the tree valid.
  pub rb_insert_color_path-IsValid :
      (x : A) (p : Ancestors A) (m : ℕ)
      → PathAlternates p
      → PathHeight p 0 m
      → IsValid (rb_insert_color (rb_link_node x) p)
  unfolding rb_insert_color rb_link_node
  rb_insert_color_path-IsValid x p m pa ph =
      insert_loop-IsValid leaf x leaf p 0 m (refl, refl, tt, tt) pa (refl, refl) ph
