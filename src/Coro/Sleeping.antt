-- ===== src/Coro/Sleeping.antt =====
-- `move_to_inactive_tree` (src/coro/sched.c) puts a coroutine to sleep.
use cserv.Prelude.{
  ℕ, ◌+◌, ◌≡◌, ◌≢◌, refl, sym, ap, ◌∙◌, arith, Option, some, List, [], ◌∷◌, ◌++◌, Every,
  Every-append, Every-split, one_at, count,
}
use cserv.Util.Rbtree.Tree.{Tree, leaf, Ancestors, top, plug}
use cserv.Util.Rbtree.Order.{inorder, before, after, rb_insert_color-inorder}
use cserv.Util.Rbtree.Insert.{rb_link_node, rb_insert_color}
use cserv.Util.Memcache.Defs.{Memcache, memcache_alloc}
use cserv.Coro.Search.{Focus}
use cserv.Coro.SearchLaws.{Descended}
use cserv.Coro.State.{TimerNode, Schedule}
use cserv.Coro.Timers.{
  add_to_timer_node, found, vacant, find_place, add_timer_node, move_to_inactive_tree, put_back,
}
use cserv.Coro.Ordered.{whole, front, back, inorder-put_back, inserted-Ordered, inorder-Descended}
use cserv.Coro.Places.{Near, at_node, at_gap, placed}
use cserv.Coro.TimerNodes.{Agrees, add_to_timer_node-Agrees}
use cserv.Coro.TimerTree.{
  sleepers, count-sleepers, count-sleepers_at, Timed, Timed-around, put_back-Timed, times,
}

-- The schedule once a coroutine sleeps: of the others, all sleep that slept before.
pub record Added {F : Type 0} (sched : Schedule F) (id : ℕ) (after : Schedule F) : Type 0 where
  pub inactive : Tree TimerNode
  pub cache : Memcache
  pub shape : after ≡ record sched { inactive = inactive; cache = cache }
  pub timed : Timed (times sched) inactive
  pub counts :
      (k : ℕ)
      → count k (sleepers (inorder inactive))
        ≡ one_at k id + count k (sleepers (inorder sched.inactive))

-- a node that holds a coroutine is not empty
not_nil : (k : ℕ) (xs : List ℕ) (n : ℕ) → count k xs ≡ one_at k k + n → xs ≢ []
not_nil k xs n e h = ground (arith, e, ap (count k) h)

-- a new timer node at the place that was found
inserted-Timed :
    (ts : ℕ → ℕ) (t : Tree TimerNode) (n : TimerNode) (q : Ancestors TimerNode)
    → Timed ts t
    → Descended TimerNode.timeout n.timeout t top q
    → Agrees ts n
    → inorder n.root ≢ []
    → Timed ts (rb_insert_color (rb_link_node n) q)
      × ((k : ℕ)
          → count k (sleepers (inorder (rb_insert_color (rb_link_node n) q)))
            ≡ count k (inorder n.root) + count k (sleepers (inorder t)))
inserted-Timed ts t n q v d a h =
    let e = inorder-Descended TimerNode.timeout t n.timeout q d in
    let (f, b) = Every-split _ (before q) (after q) (rw e v.nodes) in
    (
      record {
        order = inserted-Ordered TimerNode.timeout t n q d v.order;
        nodes =
            rw (rb_insert_color-inorder n q)
              (Every-append _ (before q) (n ∷ after q) f ((a, h), b));
      },
      (λ k.
          rw (rb_insert_color-inorder n q, sym e)
            (omega (
              arith,
              count-sleepers_at k (before q) n (after q),
              count-sleepers k (before q) (after q),
            ))),
    )

empty_node-Agrees :
    (ts : ℕ → ℕ) (address timeout : ℕ)
    → Agrees ts (record { address = address; root = leaf; timeout = timeout })
empty_node-Agrees ts address timeout = record {
  order = record {
    valid = record { root = refl; alternates = tt; height = 0; balanced = refl };
    sorted = tt;
  };
  timed = tt;
}

module _ {F : Type 0} where
  -- the time of the coroutine is in the tree
  move_to_inactive_tree-found :
      (malloc : Option ℕ) (sched : Schedule F) (id : ℕ) (at : Focus TimerNode)
      → find_place (times sched id) sched.inactive top ≡ found at
      → move_to_inactive_tree malloc sched id
        ≡ record sched { inactive = put_back at (add_to_timer_node at.item id) }
  unfolding move_to_inactive_tree
  move_to_inactive_tree-found malloc sched id at e = rw (move_to_inactive_tree, e) refl

  pub move_to_inactive_tree-vacant :
      (malloc : Option ℕ) (sched : Schedule F) (id : ℕ) (q : Ancestors TimerNode)
      → find_place (times sched id) sched.inactive top ≡ vacant q
      → move_to_inactive_tree malloc sched id
        ≡ add_timer_node (memcache_alloc malloc sched.cache) (times sched id) id q sched
  unfolding move_to_inactive_tree
  move_to_inactive_tree-vacant malloc sched id q e = rw (move_to_inactive_tree, e) refl

  found-Added :
      (malloc : Option ℕ) (sched : Schedule F) (id : ℕ) (at : Focus TimerNode)
      → Timed (times sched) sched.inactive
      → count id (sleepers (inorder sched.inactive)) ≡ 0
      → find_place (times sched id) sched.inactive top ≡ found at
      → times sched id ≡ at.item.timeout
      → whole at ≡ sched.inactive
      → Added sched id (move_to_inactive_tree malloc sched id)
  found-Added malloc sched id at t z e i q =
      let tw : Timed (times sched) (whole at) = rw q t in
      let (f, b) = Timed-around (times sched) at tw in
      let w : inorder sched.inactive ≡ front at ++ (at.item ∷ back at) =
        ap inorder (sym q) ∙ inorder-put_back at at.item in
      let z' : count id (inorder at.item.root) ≡ 0 = omega (
        arith,
        z,
        ap (λ ns. count id (sleepers ns)) w,
        count-sleepers_at id (front at) at.item (back at),
      ) in
      let n = add_to_timer_node at.item id in
      let (a, counts) = add_to_timer_node-Agrees (times sched) at.item id b.0.0 i z' in
      record {
        inactive = put_back at n;
        cache = sched.cache;
        shape = move_to_inactive_tree-found malloc sched id at e;
        timed =
            put_back-Timed (times sched) at n tw (unfold add_to_timer_node in refl) a
              (not_nil id (inorder n.root) _ (counts id));
        counts = (λ k.
            rw (inorder-put_back at n, w)
              (omega (
                arith,
                counts k,
                count-sleepers_at k (front at) n (back at),
                count-sleepers_at k (front at) at.item (back at),
              )));
      }

  vacant-Added :
      (malloc : Option ℕ) (sched : Schedule F) (id : ℕ) (q : Ancestors TimerNode) (address : ℕ)
      → (cache : Memcache) → Timed (times sched) sched.inactive
      → memcache_alloc malloc sched.cache ≡ (some address, cache)
      → find_place (times sched id) sched.inactive top ≡ vacant q
      → Descended TimerNode.timeout (times sched id) sched.inactive top q
      → Added sched id (move_to_inactive_tree malloc sched id)
  unfolding add_timer_node add_to_timer_node
  vacant-Added malloc sched id q address cache t m e d =
      let new : TimerNode = record { address = address; root = leaf; timeout = times sched id } in
      let n = add_to_timer_node new id in
      let (a, counts) =
        add_to_timer_node-Agrees (times sched) new id
          (empty_node-Agrees (times sched) address (times sched id)) refl refl in
      let (v, more) =
        inserted-Timed (times sched) sched.inactive n q t d a
          (not_nil id (inorder n.root) _ (counts id)) in
      record {
        inactive = rb_insert_color (rb_link_node n) q;
        cache = cache;
        shape =
            move_to_inactive_tree-vacant malloc sched id q e
            ∙ ap (λ r. add_timer_node r (times sched id) id q sched) m;
        timed = v;
        counts = (λ k. omega (arith, counts k, more k));
      }

  pub move_to_inactive_tree-Added :
      (malloc : Option ℕ) (sched : Schedule F) (id address : ℕ) (cache : Memcache)
      → Timed (times sched) sched.inactive
      → Every (λ n. Near (times sched id) n.timeout) (inorder sched.inactive)
      → count id (sleepers (inorder sched.inactive)) ≡ 0
      → memcache_alloc malloc sched.cache ≡ (some address, cache)
      → Added sched id (move_to_inactive_tree malloc sched id)
  unfolding plug
  move_to_inactive_tree-Added malloc sched id address cache t n z m =
      elim (placed (times sched id) sched.inactive top t.order.sorted n tt tt) [
        | at_node at e i q ↦ found-Added malloc sched id at t z e i q
        | at_gap q e d ↦ vacant-Added malloc sched id q address cache t m e d
      ]
