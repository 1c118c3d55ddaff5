-- ===== src/Coro/Wakes.antt =====
-- The moves of src/coro/sched.c between the timers and the lists.
use cserv.Prelude.{
  ℕ, ◌+◌, ◌≡◌, ◌≢◌, ap, arith, Bool, false, Option, some, [], ◌∷◌, one_at, count, count-append,
  Every,
}
use cserv.Util.Rbtree.Order.{inorder}
use cserv.Util.Memcache.Defs.{Memcache, memcache_alloc}
use cserv.Coro.State.{Coroutine, running, Schedule, write}
use cserv.Coro.Timers.{remove_from_inactive_tree}
use cserv.Coro.Sched.{
  move_to_active_list_tail_direct, move_to_active_list_tail, move_to_active_list_head, switch_back,
  set_by_timeout, schedule_timeout, wakeup_coro, wakeup_coro_priority,
}
use cserv.Coro.Places.{Near}
use cserv.Coro.TimerTree.{times, remove_from_inactive_tree-Removed}
use cserv.Coro.Sleeping.{move_to_inactive_tree-Added}
use cserv.Coro.Expiry.{Timed-times}
use cserv.Coro.Invariant.{current_list, sleeping, Holds, write_self, Holds-write, Holds-current}
use cserv.Util.Rbtree.Order.{inorder}

module _ {F : Type 0} where
  -- a coroutine that sleeps has left the timers
  removed-Holds :
      (sched : Schedule F) (id : ℕ)
      → count id (sleeping sched) ≢ 0
      → Holds [] sched
      → Holds (id ∷ []) (remove_from_inactive_tree sched id)
  removed-Holds sched id h v =
      let r = remove_from_inactive_tree-Removed sched id v.timed h in
      rw r.shape (record {
        timed = r.timed;
        once = (λ k. omega (arith, r.counts k, v.once k));
        counted = v.counted;
        bounded = v.bounded;
      })

  by_timeout-timeout :
      (cs : ℕ → Coroutine F) (id : ℕ) (b : Bool) (k : ℕ)
      → (cs k).timeout ≡ (write cs id (record (cs id) { active_by_timeout = b }) k).timeout
  unfolding write
  by_timeout-timeout cs id b k = ground arith

  -- `coro->active_by_timeout = b` changes no time
  by_timeout-Holds :
      (sched : Schedule F) (id : ℕ) (b : Bool)
      → Holds [] sched
      → Holds [] (set_by_timeout sched id b)
  unfolding set_by_timeout
  by_timeout-Holds sched id b v = record {
    timed =
        Timed-times (times sched) _ sched.inactive (by_timeout-timeout sched.coroutines id b)
          v.timed;
    once = v.once;
    counted = v.counted;
    bounded = v.bounded;
  }

  pub wakeup_coro-Holds :
      (sched : Schedule F) (id : ℕ)
      → count id (sleeping sched) ≢ 0
      → Holds [] sched
      → Holds [] (wakeup_coro sched id)
  unfolding wakeup_coro move_to_active_list_tail move_to_active_list_tail_direct set_by_timeout
  wakeup_coro-Holds sched id h v =
      let w =
        removed-Holds (set_by_timeout sched id false) id h (by_timeout-Holds sched id false v) in
      record {
        timed = w.timed;
        once = (λ k. omega (
          arith,
          w.once k,
          count-append k (remove_from_inactive_tree (set_by_timeout sched id false) id).active
              (id ∷ []),
        ));
        counted = w.counted;
        bounded = w.bounded;
      }

  pub wakeup_coro_priority-Holds :
      (sched : Schedule F) (id : ℕ)
      → count id (sleeping sched) ≢ 0
      → Holds [] sched
      → Holds [] (wakeup_coro_priority sched id)
  unfolding wakeup_coro_priority move_to_active_list_head set_by_timeout
  wakeup_coro_priority-Holds sched id h v =
      let w =
        removed-Holds (set_by_timeout sched id false) id h (by_timeout-Holds sched id false v) in
      record {
        timed = w.timed;
        once = (λ k. omega (arith, w.once k));
        counted = w.counted;
        bounded = w.bounded;
      }

  pub schedule_timeout-Holds :
      (malloc : Option ℕ) (now milliseconds : ℕ) (sched : Schedule F) (id address : ℕ)
      → (cache : Memcache) → sched.current ≡ running id
      → Every (λ n. Near (now + milliseconds) n.timeout) (inorder sched.inactive)
      → memcache_alloc malloc sched.cache ≡ (some address, cache)
      → Holds [] sched
      → Holds [] (schedule_timeout malloc now milliseconds sched id)
  unfolding schedule_timeout switch_back
  schedule_timeout-Holds malloc now milliseconds sched id address cache c n m v =
      let z = Holds-current id sched c v in
      let coro : Coroutine F = record (sched.coroutines id) { timeout = now + milliseconds } in
      let timed_for : Schedule F = record sched { coroutines = write sched.coroutines id coro } in
      let w = Holds-write [] sched id coro z v in
      let at : (write sched.coroutines id coro id).timeout ≡ now + milliseconds =
        ap Coroutine.timeout (write_self sched.coroutines id coro) in
      let a = move_to_inactive_tree-Added malloc timed_for id address cache w.timed (rw at n) z m in
      let was : (k : ℕ) → count k (current_list sched.current) ≡ one_at k id + 0 =
        λ k. ap (λ y. count k (current_list y)) c in
      rw a.shape (record {
        timed = a.timed;
        once = (λ k. omega (arith, a.counts k, v.once k, was k));
        counted = v.counted;
        bounded = v.bounded;
      })
