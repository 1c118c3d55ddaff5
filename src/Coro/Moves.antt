-- ===== src/Coro/Moves.antt =====
-- Each move of src/coro/sched.c takes a coroutine from one place to another.
use mathlib.Core.Path.{subst}
use mathlib.Core.Option.{some-injective}
use cserv.Prelude.{
  ℕ, ◌+◌, ◌≡◌, ◌≢◌, refl, ap, arith, Bool, true, false, Bool-cases, inl, inr, ◌⊎◌, Option, none,
  some, List, [], ◌∷◌, ◌==◌, one_at, count, count-append,
}
use cserv.Coro.State.{no_coro, running, Schedule}
use cserv.Coro.Sched.{
  move_to_idle_list_direct, move_to_active_list_tail_direct, init_at, create_coroutine,
  init_created, get_from, get_coroutine, start, dispatch_coro, active_from, get_active_coroutine,
  switch_to, run_next, switch_back, finish, set_by_timeout, is_wakeup_by_timeout,
}
use cserv.Coro.Invariant.{current_list, Holds, Holds-write, Holds-extra, Holds-current}

-- what `get_coroutine` gives: a coroutine that stands nowhere, or none
data Fetched {F : Type 0} (sched : Schedule F) (result : Option ℕ × Schedule F) : Type 0 where
  refused : result ≡ (none, sched) → Fetched sched result
  fetched :
      (id : ℕ) (after : Schedule F)
      → result ≡ (some id, after)
      → Holds (id ∷ []) after
      → after.current ≡ sched.current
      → Fetched sched result

module _ {F : Type 0} where
  -- the counters once a coroutine has been created
  abbrev created_one : Schedule F → Schedule F
  created_one sched = record sched {
    next_coro_id = sched.next_coro_id + 1;
    curr_coro_size = sched.curr_coro_size + 1;
  }

  create-cases :
      (memory stack : Bool) (sched : Schedule F)
      → (create_coroutine memory stack sched ≡ (none, sched))
        ⊎ ((sched.curr_coro_size ≢ sched.max_coro_size)
            × (create_coroutine memory stack sched
                ≡ (some (sched.next_coro_id + 1), created_one sched)))
  unfolding create_coroutine
  create-cases memory stack sched =
      elim (Bool-cases (sched.curr_coro_size == sched.max_coro_size)) [
        | inl e ↦ inl (rw (create_coroutine, e) refl)
        | inr e ↦ memory_cases memory stack e
      ]
    where
      memory_cases :
          (memory stack : Bool)
          → (sched.curr_coro_size == sched.max_coro_size) ≡ false
          → (create_coroutine memory stack sched ≡ (none, sched))
            ⊎ ((sched.curr_coro_size ≢ sched.max_coro_size)
                × (create_coroutine memory stack sched
                    ≡ (some (sched.next_coro_id + 1), created_one sched)))
      memory_cases true true e = inr ((λ q. ground (arith, e, q)), rw (create_coroutine, e) refl)
      memory_cases true false e = inl (rw (create_coroutine, e) refl)
      memory_cases false stack e = inl (rw (create_coroutine, e) refl)

  created_one-Holds :
      (sched : Schedule F)
      → Holds [] sched
      → sched.curr_coro_size ≢ sched.max_coro_size
      → Holds ((sched.next_coro_id + 1) ∷ []) (created_one sched)
  created_one-Holds sched v h = record {
    timed = v.timed;
    once = (λ k. ground (arith, v.once k));
    counted = omega (arith, v.counted);
    bounded = omega (arith, v.bounded, h);
  }

  get_from-Fetched :
      (memory stack : Bool) (sched : Schedule F) (ids : List ℕ)
      → sched.idle ≡ ids
      → Holds [] sched
      → Fetched sched (get_from memory stack sched ids)
  unfolding get_from init_at
  get_from-Fetched memory stack sched (id ∷ rest) e v =
      let taken : (k : ℕ) → count k sched.idle ≡ one_at k id + count k rest = λ k. ap (count k) e in
      let free : Holds (id ∷ []) (record sched { idle = rest }) = record {
        timed = v.timed;
        once = (λ k. omega (arith, taken k, v.once k));
        counted = v.counted;
        bounded = v.bounded;
      } in
      fetched id _ refl
        (Holds-write (id ∷ []) (record sched { idle = rest }) id _
          (Holds-extra id (record sched { idle = rest }) free) free)
        refl
  get_from-Fetched memory stack sched [] e v = elim (create-cases memory stack sched) [
    | inl q ↦ refused (ap init_created q)
    | inr (h, q) ↦
        let new = created_one-Holds sched v h in
        fetched (sched.next_coro_id + 1) _ (ap init_created q)
          (Holds-write ((sched.next_coro_id + 1) ∷ []) (created_one sched) (sched.next_coro_id + 1)
            _ (Holds-extra (sched.next_coro_id + 1) (created_one sched) new) new)
          refl
  ]

  pub dispatch_coro-Holds :
      (memory stack : Bool) (task : F) (sched : Schedule F)
      → Holds [] sched
      → Holds [] (dispatch_coro memory stack task sched).1
  unfolding dispatch_coro get_coroutine start move_to_active_list_tail_direct
  dispatch_coro-Holds memory stack task sched v =
      elim (get_from-Fetched memory stack sched sched.idle refl v) [
        | refused e ↦ rw e v
        | fetched id after e h c ↦ rw e (
            let w =
              Holds-write (id ∷ []) after id (record (after.coroutines id) { task = task })
                (Holds-extra id after h) h in
            record {
              timed = w.timed;
              once = (λ k. omega (arith, w.once k, count-append k after.active (id ∷ [])));
              counted = w.counted;
              bounded = w.bounded;
            })
      ]

  -- a round of `run_active_coroutine`
  active_from-Holds :
      (sched after : Schedule F) (ids : List ℕ)
      → sched.active ≡ ids
      → sched.current ≡ no_coro
      → switch_to (active_from sched ids) ≡ some after
      → Holds [] sched
      → Holds [] after
  unfolding active_from switch_to
  active_from-Holds sched after [] e c q v = absurd (ground (arith, q))
  active_from-Holds sched after (id ∷ rest) e c q v =
      let taken : (k : ℕ) → count k sched.active ≡ one_at k id + count k rest =
        λ k. ap (count k) e in
      let none_yet : (k : ℕ) → count k (current_list sched.current) ≡ 0 =
        λ k. ap (λ z. count k (current_list z)) c in
      let run : Holds [] (record sched { active = rest; current = running id }) = record {
        timed = v.timed;
        once = (λ k. omega (arith, taken k, none_yet k, v.once k));
        counted = v.counted;
        bounded = v.bounded;
      } in
      subst (Holds []) (some-injective _ _ q) run

  pub run_next-Holds :
      (sched after : Schedule F)
      → sched.current ≡ no_coro
      → run_next sched ≡ some after
      → Holds [] sched
      → Holds [] after
  unfolding run_next get_active_coroutine
  run_next-Holds sched after c q v = active_from-Holds sched after sched.active refl c q v

  pub finish-Holds :
      (sched : Schedule F) (id : ℕ)
      → sched.current ≡ running id
      → Holds [] sched
      → Holds [] (finish sched id)
  unfolding finish move_to_idle_list_direct switch_back
  finish-Holds sched id c v =
      let was : (k : ℕ) → count k (current_list sched.current) ≡ one_at k id + 0 =
        λ k. ap (λ z. count k (current_list z)) c in
      record {
        timed = v.timed;
        once = (λ k. omega (arith, v.once k, was k, count-append k sched.idle (id ∷ [])));
        counted = v.counted;
        bounded = v.bounded;
      }

  pub is_wakeup_by_timeout-Holds :
      (sched : Schedule F) (id : ℕ)
      → sched.current ≡ running id
      → Holds [] sched
      → Holds [] (is_wakeup_by_timeout sched id).1
  unfolding is_wakeup_by_timeout set_by_timeout
  is_wakeup_by_timeout-Holds sched id c v = Holds-write [] sched id _ (Holds-current id sched c v) v
