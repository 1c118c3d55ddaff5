-- ===== src/Coro/TimerNodes.antt =====
-- One timer node of src/coro/sched.c: a coroutine is added to its tree and taken out of it.
use cserv.Prelude.{
  ℕ, ◌+◌, ◌≡◌, ◌≢◌, refl, sym, ap, ◌∙◌, arith, some, List, ◌∷◌, ◌++◌, Every, Every-append,
  Every-split, Every-count, one_at, count, count-append, count_zero-Every,
}
use cserv.Util.Rbtree.Tree.{top, plug}
use cserv.Util.Rbtree.Order.{inorder, before, after, rb_insert_color-inorder}
use cserv.Coro.Search.{Focus, locate, descend, erase_at}
use cserv.Coro.SearchLaws.{absent, present, located, descended}
use cserv.Coro.State.{TimerNode}
use cserv.Coro.Timers.{coro_id, find_in_timer, remove_from_timer_node, add_to_timer_node}
use cserv.Coro.Ordered.{
  front, back, inorder-put_back, inorder-erase_at, Ordered, erase_at-Ordered, inserted-Ordered,
  inorder-Descended,
}

-- the tree of the node is valid, and its coroutines wait for its time
pub record Agrees (times : ℕ → ℕ) (n : TimerNode) : Type 0 where
  pub order : Ordered coro_id n.root
  pub timed : Every (λ id. times id ≡ n.timeout) (inorder n.root)

-- Every coroutine but those of the node is as before.
pub add_to_timer_node-count :
    (n : TimerNode) (id : ℕ)
    → Ordered coro_id n.root
    → count id (inorder n.root) ≡ 0
    → Ordered coro_id (add_to_timer_node n id).root
      × ((P : ℕ → Type 0)
          → P id
          → Every P (inorder n.root)
          → Every P (inorder (add_to_timer_node n id).root))
      × ((k : ℕ)
          → count k (inorder (add_to_timer_node n id).root)
            ≡ one_at k id + count k (inorder n.root))
unfolding add_to_timer_node
add_to_timer_node-count n id o z =
    let q = descend coro_id id n.root top in
    let d =
      descended coro_id id n.root top o.sorted (count_zero-Every id (inorder n.root) z) tt tt in
    let e = inorder-Descended coro_id n.root id q d in
    (
      inserted-Ordered coro_id n.root id q d o,
      (λ P h a. rw (rb_insert_color-inorder id q) (
          let (f, b) = Every-split P (before q) (after q) (rw e a) in
          Every-append P (before q) (id ∷ after q) f (h, b))),
      (λ k.
          rw (rb_insert_color-inorder id q, sym e)
            (omega (
              arith,
              count-append k (before q) (id ∷ after q),
              count-append k (before q) (after q),
            ))),
    )

pub add_to_timer_node-Agrees :
    (times : ℕ → ℕ) (n : TimerNode) (id : ℕ)
    → Agrees times n
    → times id ≡ n.timeout
    → count id (inorder n.root) ≡ 0
    → Agrees times (add_to_timer_node n id)
      × ((k : ℕ)
          → count k (inorder (add_to_timer_node n id).root)
            ≡ one_at k id + count k (inorder n.root))
add_to_timer_node-Agrees times n id a t z =
    let (o, every, counts) = add_to_timer_node-count n id a.order z in
    (record { order = o; timed = unfold add_to_timer_node in every _ t a.timed }, counts)

remove_from_timer_node-found :
    (n : TimerNode) (id : ℕ) (at : Focus ℕ)
    → locate coro_id id n.root top ≡ some at
    → remove_from_timer_node n id ≡ record n { root = erase_at at }
unfolding remove_from_timer_node find_in_timer
remove_from_timer_node-found n id at e = rw (remove_from_timer_node, e) refl

counts-around :
    (k id : ℕ) (xs : List ℕ) (at : Focus ℕ)
    → xs ≡ front at ++ (at.item ∷ back at)
    → id ≡ at.item
    → one_at k id + count k (inorder (erase_at at)) ≡ count k xs
counts-around k id xs at w i =
    rw (inorder-erase_at at, w, i)
      (omega
        (arith, count-append k (front at) (at.item ∷ back at), count-append k (front at) (back at)))

-- a coroutine that waits in the node leaves it
pub remove_from_timer_node-Agrees :
    (times : ℕ → ℕ) (n : TimerNode) (id : ℕ)
    → Agrees times n
    → count id (inorder n.root) ≢ 0
    → Agrees times (remove_from_timer_node n id)
      × ((remove_from_timer_node n id).timeout ≡ n.timeout)
      × ((k : ℕ)
          → one_at k id + count k (inorder (remove_from_timer_node n id).root)
            ≡ count k (inorder n.root))
unfolding plug
remove_from_timer_node-Agrees times n id a h = elim (located coro_id id n.root top a.order.sorted) [
  | absent e l ↦ absurd (Every-count (λ x. x ≢ id) id (inorder n.root) l h refl)
  | present at e i q ↦ rw (remove_from_timer_node-found n id at e) (
      let w : inorder n.root ≡ front at ++ (at.item ∷ back at) =
        ap inorder (sym q) ∙ inorder-put_back at at.item in
      let (tf, tb) = Every-split _ (front at) (at.item ∷ back at) (rw (sym w) a.timed) in
      (
        record {
          order = erase_at-Ordered coro_id at (rw q a.order);
          timed = rw (inorder-erase_at at) (Every-append _ (front at) (back at) tf tb.1);
        },
        refl,
        (λ k. counts-around k id (inorder n.root) at w i),
      ))
]
