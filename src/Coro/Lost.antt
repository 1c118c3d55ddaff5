-- ===== src/Coro/Lost.antt =====
-- `schedule_timeout` (src/coro/sched.c) when the cache has no timer node to give.
use cserv.Prelude.{
  ℕ, ◌+◌, ◌≡◌, sym, ap, ◌∙◌, arith, Option, none, [], ◌∷◌, ◌++◌, one_at, count, Every, Every-split,
}
use cserv.Util.Rbtree.Tree.{top, plug}
use cserv.Util.Rbtree.Order.{inorder}
use cserv.Util.Memcache.Defs.{Memcache, memcache_alloc}
use cserv.Coro.State.{TimerNode, Coroutine, running, Schedule, write}
use cserv.Coro.Timers.{add_timer_node, move_to_inactive_tree}
use cserv.Coro.Sched.{switch_back, schedule_timeout}
use cserv.Coro.SearchLaws.{Lacks}
use cserv.Coro.Places.{Near, at_node, at_gap, placed}
use cserv.Coro.Ordered.{front, back, inorder-put_back}
use cserv.Coro.Sleeping.{move_to_inactive_tree-vacant}
use cserv.Coro.TimerTree.{Timed, times}
use cserv.Coro.Invariant.{current_list, Holds, write_self, Holds-write, Holds-current}

module _ {F : Type 0} where
  unmoved :
      (malloc : Option ℕ) (sched : Schedule F) (id : ℕ) (cache : Memcache)
      → Timed (times sched) sched.inactive
      → Every (λ n. Near (times sched id) n.timeout) (inorder sched.inactive)
      → Lacks TimerNode.timeout (times sched id) (inorder sched.inactive)
      → memcache_alloc malloc sched.cache ≡ (none, cache)
      → move_to_inactive_tree malloc sched id ≡ record sched { cache = cache }
  unfolding plug add_timer_node
  unmoved malloc sched id cache t n l m =
      elim (placed (times sched id) sched.inactive top t.order.sorted n tt tt) [
        | at_node at e i q ↦
            let lw : Lacks TimerNode.timeout (times sched id) (front at ++ (at.item ∷ back at)) =
              rw (sym (inorder-put_back at at.item), q) l in
            absurd ((Every-split _ (front at) (at.item ∷ back at) lw).1.0 (sym i))
        | at_gap q e d ↦
            move_to_inactive_tree-vacant malloc sched id q e
            ∙ ap (λ r. add_timer_node r (times sched id) id q sched) m
      ]

  -- When no timer node has the time of the coroutine yet, and the cache has none to give, the current
  -- coroutine goes to sleep all the same, but it stands nowhere: neither a timeout nor
  -- `run_active_coroutine` will find it.
  pub schedule_timeout-lost :
      (malloc : Option ℕ) (now milliseconds : ℕ) (sched : Schedule F) (id : ℕ) (cache : Memcache)
      → sched.current ≡ running id
      → Every (λ n. Near (now + milliseconds) n.timeout) (inorder sched.inactive)
      → Lacks TimerNode.timeout (now + milliseconds) (inorder sched.inactive)
      → memcache_alloc malloc sched.cache ≡ (none, cache)
      → Holds [] sched
      → Holds (id ∷ []) (schedule_timeout malloc now milliseconds sched id)
  unfolding schedule_timeout switch_back
  schedule_timeout-lost malloc now milliseconds sched id cache c n l m v =
      let z = Holds-current id sched c v in
      let coro : Coroutine F = record (sched.coroutines id) { timeout = now + milliseconds } in
      let timed_for : Schedule F = record sched { coroutines = write sched.coroutines id coro } in
      let w = Holds-write [] sched id coro z v in
      let at : (write sched.coroutines id coro id).timeout ≡ now + milliseconds =
        ap Coroutine.timeout (write_self sched.coroutines id coro) in
      let was : (k : ℕ) → count k (current_list sched.current) ≡ one_at k id + 0 =
        λ k. ap (λ y. count k (current_list y)) c in
      rw (unmoved malloc timed_for id cache w.timed (rw at n) (rw at l) m) (record {
        timed = w.timed;
        once = (λ k. omega (arith, v.once k, was k));
        counted = v.counted;
        bounded = v.bounded;
      })
