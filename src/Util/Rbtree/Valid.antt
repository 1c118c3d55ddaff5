-- ===== src/Util/Rbtree/Valid.antt =====
-- `rb_insert_color` and `rb_erase` (src/util/rbtree.c) take a valid tree to a valid tree.
use cserv.Prelude.{ℕ, zero, suc, sym}
use cserv.Util.Rbtree.Tree.{
  Color, red, black, Tree, leaf, node, Ancestors, top, left_of, right_of, plug, set_black,
}
use cserv.Util.Rbtree.Insert.{rb_insert_color, rb_link_node}
use cserv.Util.Rbtree.Erase.{
  Round, up, settled, ended, turn_left, turn_right, rb_erase_color, under, leftmost, recolor,
  rb_erase,
}
use cserv.Util.Rbtree.OrderErase.{next_round}
use cserv.Util.Rbtree.Colors.{
  Alternates, HasHeight, IsValid, PathAlternates, PathHeight, Fits-of_black, plug-IsValid,
  set_black-IsValid, set_black-Alternates, root-IsValid,
}
use cserv.Util.Rbtree.InsertColors.{rb_insert_color_path-IsValid}
use cserv.Util.Rbtree.EraseColors.{over, Restores, turn_left-Restores}
use cserv.Util.Rbtree.EraseMirror.{turn_right-Restores}
use cserv.Util.Rbtree.Parts.{
  Parts, swapped-Parts, right-Parts, IsValid-Parts, leftmost-Parts, replaced-Parts,
}

module _ {A : Type 0} where
  next_round-IsValid :
      (p : Ancestors A) (c : Color) (n m : ℕ) (t : Round A)
      → Restores c n p t
      → PathAlternates p
      → PathHeight p (suc (over c n)) m
      → ((t' : Tree A)
          → Alternates (set_black t')
          → HasHeight t' (over c n)
          → IsValid (rb_erase_color t' p))
      → IsValid (next_round p t)
  next_round-IsValid p c n m (up t) e pa ph ih = ih t e.0 e.1
  next_round-IsValid p c n m (settled t) e pa ph ih =
      set_black-IsValid (plug p t) (plug-IsValid p t (suc (over c n)) m e.0 e.2 pa e.1 ph)
  next_round-IsValid p c n m (ended t) e pa ph ih =
      plug-IsValid p t (suc (over c n)) m e.0 e.2 pa e.1 ph

  -- the ancestors that are left when a frame is passed
  PathAlternates-left :
      (c : Color) (x : A) (s : Tree A) (p : Ancestors A)
      → PathAlternates (left_of c x s p)
      → PathAlternates p
  PathAlternates-left red x s p pa = pa.3
  PathAlternates-left black x s p pa = pa.1

  PathAlternates-right :
      (c : Color) (s : Tree A) (x : A) (p : Ancestors A)
      → PathAlternates (right_of c s x p)
      → PathAlternates p
  PathAlternates-right red s x p pa = pa.3
  PathAlternates-right black s x p pa = pa.1

  PathHeight-left :
      (c : Color) (x : A) (s : Tree A) (p : Ancestors A) (n m : ℕ)
      → PathHeight (left_of c x s p) (suc n) m
      → PathHeight p (suc (over c n)) m
  PathHeight-left red x s p n m ph = ph.1
  PathHeight-left black x s p n m ph = ph.1

  PathHeight-right :
      (c : Color) (s : Tree A) (x : A) (p : Ancestors A) (n m : ℕ)
      → PathHeight (right_of c s x p) (suc n) m
      → PathHeight p (suc (over c n)) m
  PathHeight-right red s x p n m ph = ph.1
  PathHeight-right black s x p n m ph = ph.1

  rb_erase_color-IsValid :
      (t : Tree A) (p : Ancestors A) (n m : ℕ)
      → Alternates (set_black t)
      → HasHeight t n
      → PathAlternates p
      → PathHeight p (suc n) m
      → IsValid (rb_erase_color t p)
  unfolding rb_erase_color
  rb_erase_color-IsValid (node red l x r) p n m a h pa ph =
      plug-IsValid p (node black l x r) (suc n) m a tt pa h ph
  rb_erase_color-IsValid leaf top n m a h pa ph = root-IsValid leaf n a h
  rb_erase_color-IsValid (node black l x r) top n m a h pa ph =
      root-IsValid (node black l x r) n a h
  rb_erase_color-IsValid leaf (left_of c x s p) n m a h pa ph =
      next_round-IsValid p c n m (turn_left c leaf x s)
        (turn_left-Restores c leaf x s p n m a h pa ph) (PathAlternates-left c x s p pa)
        (PathHeight-left c x s p n m ph)
        (λ t' a' h'.
          rb_erase_color-IsValid t' p (over c n) m a' h' (PathAlternates-left c x s p pa)
            (PathHeight-left c x s p n m ph))
  rb_erase_color-IsValid (node black l y r) (left_of c x s p) n m a h pa ph =
      next_round-IsValid p c n m (turn_left c (node black l y r) x s)
        (turn_left-Restores c (node black l y r) x s p n m a h pa ph)
        (PathAlternates-left c x s p pa) (PathHeight-left c x s p n m ph)
        (λ t' a' h'.
          rb_erase_color-IsValid t' p (over c n) m a' h' (PathAlternates-left c x s p pa)
            (PathHeight-left c x s p n m ph))
  rb_erase_color-IsValid leaf (right_of c s x p) n m a h pa ph =
      next_round-IsValid p c n m (turn_right c s x leaf)
        (turn_right-Restores c s x leaf p n m a h pa ph) (PathAlternates-right c s x p pa)
        (PathHeight-right c s x p n m ph)
        (λ t' a' h'.
          rb_erase_color-IsValid t' p (over c n) m a' h' (PathAlternates-right c s x p pa)
            (PathHeight-right c s x p n m ph))
  rb_erase_color-IsValid (node black l y r) (right_of c s x p) n m a h pa ph =
      next_round-IsValid p c n m (turn_right c s x (node black l y r))
        (turn_right-Restores c s x (node black l y r) p n m a h pa ph)
        (PathAlternates-right c s x p pa) (PathHeight-right c s x p n m ph)
        (λ t' a' h'.
          rb_erase_color-IsValid t' p (over c n) m a' h' (PathAlternates-right c s x p pa)
            (PathHeight-right c s x p n m ph))

  -- the one child takes the place of the node
  recolor_black-IsValid :
      (t : Tree A) (x : A) (p : Ancestors A) (n m : ℕ)
      → Alternates t
      → PathAlternates p
      → HasHeight (node black leaf x t) n
      → PathHeight p n m
      → IsValid (rb_erase_color t p)
  recolor_black-IsValid t x p zero m a pa h ph = absurd h
  recolor_black-IsValid t x p (suc n) m a pa h ph =
      rb_erase_color-IsValid t p n m (set_black-Alternates t a) h.1 pa ph

  recolor-IsValid :
      (c : Color) (t : Tree A) (x : A) (p : Ancestors A)
      → Parts (node c leaf x t) p
      → IsValid (recolor c t p)
  unfolding recolor
  recolor-IsValid red t x p q =
      plug-IsValid p t q.below q.all q.alternates.3 (Fits-of_black t p q.alternates.1) q.path
        q.balanced.1 q.above
  recolor-IsValid black t x p q =
      recolor_black-IsValid t x p q.below q.all q.alternates.1 q.path q.balanced q.above

  -- A node inserted in a valid tree, where the search has ended, leaves the tree valid.
  pub rb_insert_color-IsValid :
      (x : A) (p : Ancestors A)
      → IsValid (plug p leaf)
      → IsValid (rb_insert_color (rb_link_node x) p)
  rb_insert_color-IsValid x p v =
      let q = IsValid-Parts p leaf v in
      rb_insert_color_path-IsValid x p q.all q.path (rw (sym q.balanced) q.above)

  -- A node erased from a valid tree leaves the tree valid.
  pub rb_erase-IsValid :
      (c : Color) (l : Tree A) (x : A) (r : Tree A) (p : Ancestors A)
      → IsValid (plug p (node c l x r))
      → IsValid (rb_erase c l x r p)
  unfolding rb_erase under
  rb_erase-IsValid c leaf x r p v = recolor-IsValid c r x p (IsValid-Parts p _ v)
  rb_erase-IsValid c (node e ll y lr) x leaf p v =
      recolor-IsValid c (node e ll y lr) x p (swapped-Parts c _ x p (IsValid-Parts p _ v))
  rb_erase-IsValid c (node e ll z lr) x (node d rl y rr) p v =
      let l : Tree A = node e ll z lr in
      let next = leftmost d rl y rr top in
      let old = right-Parts c l x p (node d rl y rr) (IsValid-Parts p _ v) in
      recolor-IsValid next.color next.child next.item (under next.spine (right_of c l next.item p))
        (replaced-Parts _ next.spine c l x next.item p
          (leftmost-Parts d rl y rr top (right_of c l x p) old))
