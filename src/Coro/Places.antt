-- ===== src/Coro/Places.antt =====
-- The loop of `move_to_inactive_tree` (src/coro/sched.c), which narrows the difference of two times
-- to `int`, compares the times when they are near.
use cserv.Prelude.{
  ℕ, ◌+◌, ◌<◌, ◌≤◌, ◌≡◌, refl, ◌∙◌, arith, true, false, [], ◌∷◌, ◌++◌, Every, Every-append,
  Every-split, Every-map, ◌==◌, less, equal, greater, compared,
}
use cserv.Util.Rbtree.Tree.{Color, Tree, leaf, node, Ancestors, left_of, right_of, plug}
use cserv.Util.Rbtree.Order.{inorder, before, after}
use cserv.Coro.Search.{Focus}
use cserv.Coro.SearchLaws.{
  Above, Below, Above-trans, IsSorted, IsSorted-split, Descended, Descended-left, Descended-right,
}
use cserv.Coro.State.{TimerNode, narrow, is_negative}
use cserv.Coro.Timers.{found, vacant, find_place}

-- The difference `a - b` fits into `int`, and `b` into 64 bits.
pub record Near (a b : ℕ) : Type 0 where
  pub not_late : b ≤ a + 2147483648
  pub not_early : a < b + 2147483648
  pub fits : b < 18446744073709551616

narrow-less : (a b : ℕ) → Near a b → a < b → is_negative (narrow a b) ≡ true
unfolding narrow is_negative
narrow-less a b n h = ground (arith, n.not_late, n.not_early, n.fits, h)

narrow-greater :
    (a b : ℕ) → Near a b → b < a → (is_negative (narrow a b) ≡ false) × ((narrow a b == 0) ≡ false)
unfolding narrow is_negative
narrow-greater a b n h = ground (arith, n.not_late, n.not_early, n.fits, h)

narrow-equal :
    (a b : ℕ) → Near a b → a ≡ b → (is_negative (narrow a b) ≡ false) × ((narrow a b == 0) ≡ true)
unfolding narrow is_negative
narrow-equal a b n h = ground (arith, n.not_late, n.not_early, n.fits, h)

find_place-less :
    (k : ℕ) (c : Color) (l : Tree TimerNode) (y : TimerNode) (r : Tree TimerNode)
    (p : Ancestors TimerNode)
    → Near k y.timeout
    → k < y.timeout
    → find_place k (node c l y r) p ≡ find_place k l (left_of c y r p)
unfolding find_place
find_place-less k c l y r p n h = rw (find_place, narrow-less k y.timeout n h) refl

find_place-greater :
    (k : ℕ) (c : Color) (l : Tree TimerNode) (y : TimerNode) (r : Tree TimerNode)
    (p : Ancestors TimerNode)
    → Near k y.timeout
    → y.timeout < k
    → find_place k (node c l y r) p ≡ find_place k r (right_of c l y p)
unfolding find_place
find_place-greater k c l y r p n h =
    let (e, e') = narrow-greater k y.timeout n h in rw (find_place, e, e') refl

find_place-equal :
    (k : ℕ) (c : Color) (l : Tree TimerNode) (y : TimerNode) (r : Tree TimerNode)
    (p : Ancestors TimerNode)
    → Near k y.timeout
    → k ≡ y.timeout
    → find_place k (node c l y r) p
      ≡ found (record { color = c; left = l; item = y; right = r; path = p })
unfolding find_place
find_place-equal k c l y r p n h =
    let (e, e') = narrow-equal k y.timeout n h in rw (find_place, e, e') refl

pub data Placed (k : ℕ) (t : Tree TimerNode) (p : Ancestors TimerNode) : Type 0 where
  at_node :
      (at : Focus TimerNode)
      → find_place k t p ≡ found at
      → k ≡ at.item.timeout
      → plug at.path (node at.color at.left at.item at.right) ≡ plug p t
      → Placed k t p
  at_gap :
      (q : Ancestors TimerNode)
      → find_place k t p ≡ vacant q
      → Descended TimerNode.timeout k t p q
      → Placed k t p

pub placed :
    (k : ℕ) (t : Tree TimerNode) (p : Ancestors TimerNode)
    → IsSorted TimerNode.timeout (inorder t)
    → Every (λ n. Near k n.timeout) (inorder t)
    → Below TimerNode.timeout k (before p)
    → Above TimerNode.timeout k (after p)
    → Placed k t p
placed k leaf p s n lo hi =
    at_gap p (unfold find_place in refl) (record { place = refl; below = lo; above = hi })
placed k (node c l y r) p s n lo hi =
    let (both, b, a, sl, sr) = IsSorted-split TimerNode.timeout (inorder l) y (inorder r) s in
    let (nl, nr) = Every-split _ (inorder l) (y ∷ inorder r) n in
    elim (compared k y.timeout) [
      | less h ↦
          elim (placed k l (left_of c y r p) sl nl lo (
            h,
            Every-append _ (inorder r) (after p)
                (Above-trans TimerNode.timeout k y.timeout (inorder r) h a) hi,
          )) [
            | at_node at e i q ↦
                at_node at (find_place-less k c l y r p nr.0 h ∙ e) i (unfold plug in q)
            | at_gap q e d ↦
                at_gap q (find_place-less k c l y r p nr.0 h ∙ e)
                  (Descended-left TimerNode.timeout k c l y r p q d)
          ]
      | greater h ↦
          elim (placed k r (right_of c l y p) sr nr.1
            (Every-append _ (before p) (inorder l ++ (y ∷ [])) lo (
              Every-append _ (inorder l) (y ∷ [])
                (Every-map _ _ (inorder l) (λ x g. omega (arith, h, g)) b) (h, tt)))
            hi) [
              | at_node at e i q ↦
                  at_node at (find_place-greater k c l y r p nr.0 h ∙ e) i (unfold plug in q)
              | at_gap q e d ↦
                  at_gap q (find_place-greater k c l y r p nr.0 h ∙ e)
                    (Descended-right TimerNode.timeout k c l y r p q d)
            ]
      | equal h ↦ at_node _ (find_place-equal k c l y r p nr.0 h) h refl
    ]
