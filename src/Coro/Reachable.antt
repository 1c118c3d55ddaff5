-- ===== src/Coro/Reachable.antt =====
-- The scheduler of src/coro/sched.c as a system of steps, and what holds in every state that it
-- reaches.
use mathlib.Core.Path.{subst}
use mathlib.Core.Option.{some-injective}
use cserv.Prelude.{
  ℕ, ◌+◌, ◌/◌, ◌≡◌, ◌≢◌, refl, sym, ap, ◌∙◌, arith, Bool, Option, some, List, [], ◌∷◌, ltb,
  Bool-cases, inl, inr, count, count-append, Every,
}
use cserv.Util.Rbtree.Order.{inorder}
use cserv.Util.Memcache.Defs.{
  Memcache, memcache_alloc, memcache_create, Created, created, failed, aborted,
}
use cserv.Coro.State.{TimerNode, Coroutine, no_coro, running, Schedule}
use cserv.Coro.Sched.{
  dispatch_coro, run_next, finish, schedule_timeout, is_wakeup_by_timeout, wakeup_coro,
  wakeup_coro_priority, check_timeout_coroutine, init_with, schedule_init,
}
use cserv.Coro.Places.{Near}
use cserv.Coro.TimerTree.{sleepers, times}
use cserv.Coro.Expiry.{expired, pending, Timed-times, timeout-mark_unless}
use cserv.Coro.Check.{check_timeout_coroutine-Checked}
use cserv.Coro.Invariant.{sleeping, Holds}
use cserv.Coro.Moves.{dispatch_coro-Holds, run_next-Holds, finish-Holds, is_wakeup_by_timeout-Holds}
use cserv.Coro.Wakes.{wakeup_coro-Holds, wakeup_coro_priority-Holds, schedule_timeout-Holds}

-- The steps. A coroutine goes to sleep when the cache has a timer node to give, at a time whose
-- distance to those in the tree fits into `int`; an event wakes a coroutine that sleeps.
pub data Step {F : Type 0} (sched : Schedule F) : Schedule F → Type 0 where
  dispatches :
      (memory stack : Bool) (task : F) → Step sched (dispatch_coro memory stack task sched).1
  runs :
      (after : Schedule F)
      → sched.current ≡ no_coro
      → run_next sched ≡ some after
      → Step sched after
  finishes : (id : ℕ) → sched.current ≡ running id → Step sched (finish sched id)
  asks : (id : ℕ) → sched.current ≡ running id → Step sched (is_wakeup_by_timeout sched id).1
  sleeps :
      (malloc : Option ℕ) (now milliseconds id address : ℕ) (cache : Memcache)
      → sched.current ≡ running id
      → Every (λ n. Near (now + milliseconds) n.timeout) (inorder sched.inactive)
      → memcache_alloc malloc sched.cache ≡ (some address, cache)
      → Step sched (schedule_timeout malloc now milliseconds sched id)
  wakes : (id : ℕ) → count id (sleeping sched) ≢ 0 → Step sched (wakeup_coro sched id)
  wakes_first :
      (id : ℕ) → count id (sleeping sched) ≢ 0 → Step sched (wakeup_coro_priority sched id)
  expires :
      (now : ℕ) (after : Schedule F)
      → check_timeout_coroutine now sched ≡ some after
      → Step sched after

pub data Reachable {F : Type 0} (first : Schedule F) : Schedule F → Type 0 where
  starts : Reachable first first
  steps :
      (sched after : Schedule F) → Reachable first sched → Step sched after → Reachable first after

count-parts :
    (now k : ℕ) (ns : List TimerNode)
    → count k (sleepers (pending now ns)) + count k (sleepers (expired now ns))
      ≡ count k (sleepers ns)
count-parts now k [] = omega arith
count-parts now k (n ∷ ns) = elim (Bool-cases (ltb now n.timeout)) [
  | inl e ↦ rw e (
      omega (
        arith,
        count-parts now k ns,
        count-append k (inorder n.root) (sleepers (pending now ns)),
        count-append k (inorder n.root) (sleepers ns),
      ))
  | inr e ↦ rw e (
      omega (
        arith,
        count-parts now k ns,
        count-append k (inorder n.root) (sleepers (expired now ns)),
        count-append k (inorder n.root) (sleepers ns),
      ))
]

module _ {F : Type 0} where
  init_with-Holds :
      (sched : Schedule F) (c : Created) (stack_kbytes max_coro_size : ℕ)
      → (coroutines : ℕ → Coroutine F)
      → init_with stack_kbytes max_coro_size coroutines c ≡ some sched
      → Holds [] sched
  unfolding init_with
  init_with-Holds sched (failed _) stack_kbytes max_coro_size coroutines e =
      absurd (ground (arith, e))
  init_with-Holds sched aborted stack_kbytes max_coro_size coroutines e = absurd (ground (arith, e))
  init_with-Holds sched (created cache) stack_kbytes max_coro_size coroutines e =
      subst (Holds []) (some-injective _ _ e) (record {
        timed = record {
          order = record {
            valid = record { root = refl; alternates = tt; height = 0; balanced = refl };
            sorted = tt;
          };
          nodes = tt;
        };
        once = (λ k. ground arith);
        counted = refl;
        bounded = omega arith;
      })

  expires-Holds :
      (sched after : Schedule F) (now : ℕ)
      → check_timeout_coroutine now sched ≡ some after
      → Holds [] sched
      → Holds [] after
  expires-Holds sched after now q v =
      let c = check_timeout_coroutine-Checked now sched v.timed in
      let mark : (k : ℕ) → (sched.coroutines k).timeout ≡ (c.coroutines k).timeout =
        λ k. sym (ap Coroutine.timeout (c.woken k) ∙ timeout-mark_unless _ (sched.coroutines k)) in
      subst (Holds []) (some-injective _ _ (sym c.shape ∙ q)) (record {
        timed = Timed-times (times sched) _ c.inactive mark c.timed;
        once = (λ k. omega (
          arith,
          c.counts k,
          ap (count k) c.appended,
          count-append k sched.active c.woke,
          v.once k,
          count-parts now k (inorder sched.inactive),
          ap (λ ns. count k (sleepers ns)) c.rest,
        ));
        counted = v.counted;
        bounded = v.bounded;
      })

  Step-Holds : (sched after : Schedule F) → Step sched after → Holds [] sched → Holds [] after
  Step-Holds sched _ (dispatches memory stack task) v =
      dispatch_coro-Holds memory stack task sched v
  Step-Holds sched after (runs _ c q) v = run_next-Holds sched after c q v
  Step-Holds sched _ (finishes id c) v = finish-Holds sched id c v
  Step-Holds sched _ (asks id c) v = is_wakeup_by_timeout-Holds sched id c v
  Step-Holds sched _ (sleeps malloc now milliseconds id address cache c n m) v =
      schedule_timeout-Holds malloc now milliseconds sched id address cache c n m v
  Step-Holds sched _ (wakes id h) v = wakeup_coro-Holds sched id h v
  Step-Holds sched _ (wakes_first id h) v = wakeup_coro_priority-Holds sched id h v
  Step-Holds sched after (expires now _ q) v = expires-Holds sched after now q v

  -- In every state that the scheduler reaches from `schedule_init` by the steps, each coroutine that
  -- has been created stands in exactly one place, the timers are valid red-black trees sorted by
  -- time, no timer node is without a coroutine, and each coroutine that sleeps stands in the timer
  -- node of its own time.
  pub Reachable-Holds :
      (malloc : ℕ → Option ℕ) (stack_kbytes max_coro_size : ℕ) (coroutines : ℕ → Coroutine F)
      → (first sched : Schedule F)
      → schedule_init malloc stack_kbytes max_coro_size coroutines ≡ some first
      → Reachable first sched
      → Holds [] sched
  unfolding schedule_init
  Reachable-Holds malloc stack_kbytes max_coro_size coroutines first sched e starts =
      elim (Bool-cases (ltb max_coro_size 2)) [
        | inl small ↦ absurd (ground (arith, e, small))
        | inr big ↦
            init_with-Holds first (memcache_create malloc (max_coro_size / 2)) stack_kbytes
              max_coro_size coroutines (rw big at e)
      ]
  Reachable-Holds malloc stack_kbytes max_coro_size coroutines first sched e (steps before _ r s) =
      Step-Holds before sched s
        (Reachable-Holds malloc stack_kbytes max_coro_size coroutines first before e r)
