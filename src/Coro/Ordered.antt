-- ===== src/Coro/Ordered.antt =====
-- A valid, sorted tree stays one when a node of it is erased or replaced, or a node is inserted where
-- the search has ended (src/coro/sched.c, over src/util/rbtree.c).
use cserv.Prelude.{ℕ, zero, suc, ◌≡◌, sym, ap, ◌∙◌, List, ◌∷◌, ◌++◌}
use cserv.Util.Rbtree.Tree.{Color, red, black, Tree, leaf, node, Ancestors, top, plug}
use cserv.Util.Rbtree.Order.{inorder, before, after, inorder-plug, rb_insert_color-inorder}
use cserv.Util.Rbtree.OrderErase.{rb_erase-inorder}
use cserv.Util.Rbtree.Colors.{IsValid, Alternates, HasHeight, Fits, plug-IsValid}
use cserv.Util.Rbtree.Parts.{IsValid-Parts}
use cserv.Util.Rbtree.Insert.{rb_link_node, rb_insert_color}
use cserv.Util.Rbtree.Valid.{rb_erase-IsValid, rb_insert_color-IsValid}
use cserv.Coro.Search.{Focus, erase_at}
use cserv.Coro.SearchLaws.{IsSorted, IsSorted-insert, IsSorted-split, Descended}
use cserv.Coro.Timers.{put_back}

module _ {A : Type 0} where
  -- the tree of the node, and the elements in front of it and behind it
  abbrev pub whole : Focus A → Tree A
  whole at = put_back at at.item

  abbrev pub front : Focus A → List A
  front at = before at.path ++ inorder at.left

  abbrev pub back : Focus A → List A
  back at = inorder at.right ++ after at.path

  pub inorder-put_back :
      (at : Focus A) (x : A) → inorder (put_back at x) ≡ front at ++ (x ∷ back at)
  inorder-put_back at x = (rb_erase-inorder at.color at.left x at.right at.path).0

  pub inorder-erase_at : (at : Focus A) → inorder (erase_at at) ≡ front at ++ back at
  inorder-erase_at at = (rb_erase-inorder at.color at.left at.item at.right at.path).1

  Alternates-item :
      (c : Color) (l : Tree A) (x y : A) (r : Tree A)
      → Alternates (node c l x r)
      → Alternates (node c l y r)
  Alternates-item red l x y r a = a
  Alternates-item black l x y r a = a

  HasHeight-item :
      (c : Color) (l : Tree A) (x y : A) (r : Tree A) (n : ℕ)
      → HasHeight (node c l x r) n
      → HasHeight (node c l y r) n
  HasHeight-item red l x y r n a = a
  HasHeight-item black l x y r zero a = a
  HasHeight-item black l x y r (suc n) a = a

  Fits-item :
      (c : Color) (l : Tree A) (x y : A) (r : Tree A) (p : Ancestors A)
      → Fits (node c l x r) p
      → Fits (node c l y r) p
  Fits-item red l x y r p a = a
  Fits-item black l x y r p a = a

  put_back-IsValid : (at : Focus A) (x : A) → IsValid (whole at) → IsValid (put_back at x)
  put_back-IsValid at x v =
      let q = IsValid-Parts at.path (node at.color at.left at.item at.right) v in
      plug-IsValid at.path (node at.color at.left x at.right) q.below q.all
        (Alternates-item at.color at.left at.item x at.right q.alternates)
        (Fits-item at.color at.left at.item x at.right at.path q.fits) q.path
        (HasHeight-item at.color at.left at.item x at.right q.below q.balanced) q.above

module _ {A : Type 0} (key : A → ℕ) where
  pub record Ordered (t : Tree A) : Type 0 where
    pub valid : IsValid t
    pub sorted : IsSorted key (inorder t)

  pub erase_at-Ordered : (at : Focus A) → Ordered (whole at) → Ordered (erase_at at)
  erase_at-Ordered at o = record {
    valid = rb_erase-IsValid at.color at.left at.item at.right at.path o.valid;
    sorted =
        rw (inorder-erase_at at)
          (IsSorted-split key (front at) at.item (back at)
            (rw (sym (inorder-put_back at at.item)) o.sorted)).0;
  }

  pub put_back-Ordered :
      (at : Focus A) (x : A) → key x ≡ key at.item → Ordered (whole at) → Ordered (put_back at x)
  put_back-Ordered at x e o =
      let (both, b, a, sf, sb) =
        IsSorted-split key (front at) at.item (back at)
          (rw (sym (inorder-put_back at at.item)) o.sorted) in
      record {
        valid = put_back-IsValid at x o.valid;
        sorted =
            rw (inorder-put_back at x)
              (IsSorted-insert key (front at) x (back at) both (rw e b) (rw e a));
      }

  -- the place that a descent has found is one of the tree
  pub inserted-Ordered :
      (t : Tree A) (x : A) (q : Ancestors A)
      → Descended key (key x) t top q
      → Ordered t
      → Ordered (rb_insert_color (rb_link_node x) q)
  unfolding plug
  inserted-Ordered t x q d o = record {
    valid = rb_insert_color-IsValid x q (rw d.place o.valid);
    sorted = rw (rb_insert_color-inorder x q) (
        IsSorted-insert key (before q) x (after q)
          (rw (sym (inorder-plug q leaf) ∙ ap inorder d.place) o.sorted) d.below d.above);
  }

  pub inorder-Descended :
      (t : Tree A) (k : ℕ) (q : Ancestors A)
      → Descended key k t top q
      → before q ++ after q ≡ inorder t
  unfolding plug
  inorder-Descended t k q d = sym (inorder-plug q leaf) ∙ ap inorder d.place
