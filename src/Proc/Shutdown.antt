-- ===== src/Proc/Shutdown.antt =====
-- How the service ends: `all_workers_exit` in src/process.c against the children that there are.
use mathlib.Core.Path.{subst}
use cserv.Prelude.{
  ℕ, ◌+◌, ◌≤◌, ◌≡◌, ◌≢◌, refl, sym, ap, ◌∙◌, arith, true, List, [], ◌∷◌, ◌++◌, ◌==◌, if◌then◌else◌,
  count, count-append,
}
use cserv.Proc.Master.{
  Signal, sigquit, sigterm, sigint, sigchld, other_signal, Master, Fork, exits, master_round,
  shutting_down, worker_process_get_status, master_signal_handler, process_init,
}
use cserv.Proc.System.{
  pids, started_in, System, Step, signalled, ends, reaps, rounds, Reachable, starts, steps,
  first_system,
}
use cserv.Proc.Tables.{init_workers-pids}
use cserv.Proc.Rounds.{
  Continued, Rounded, master_round-Rounded, master_round-exits, Settled,
  worker_process_get_status-Reaped,
}

-- the table holds the children, each once, and the flag of the end is set only without any
pub record IsValid (sys : System) : Type 0 where
  pub counts : (k : ℕ) → count k (pids sys.master.worker) ≡ count k sys.alive + count k sys.zombies
  pub single : (k : ℕ) → count k sys.alive + count k sys.zombies ≤ 1
  pub settled : Settled sys.master

signalled-IsValid :
    (signo : Signal) (sys : System)
    → signo ≢ sigchld
    → IsValid sys
    → IsValid (record sys { master = master_signal_handler signo [] sys.master })
unfolding master_signal_handler
signalled-IsValid sigquit sys h v = record {
  counts = v.counts;
  single = v.single;
  settled = v.settled;
}
signalled-IsValid sigterm sys h v = record {
  counts = v.counts;
  single = v.single;
  settled = v.settled;
}
signalled-IsValid sigint sys h v = record {
  counts = v.counts;
  single = v.single;
  settled = v.settled;
}
signalled-IsValid sigchld sys h v = absurd (h refl)
signalled-IsValid other_signal sys h v = record {
  counts = v.counts;
  single = v.single;
  settled = v.settled;
}

-- the counts when one of the living is taken to the zombies
count-ends :
    (k pid : ℕ) (xs ys alive zombies : List ℕ)
    → alive ≡ xs ++ (pid ∷ ys)
    → count k (xs ++ ys) + count k (pid ∷ zombies) ≡ count k alive + count k zombies
count-ends k pid xs ys alive zombies e =
    rw (e, count-append k xs ys, count-append k xs (pid ∷ ys)) (omega arith)

ends-IsValid :
    (xs ys : List ℕ) (pid : ℕ) (sys : System)
    → sys.alive ≡ xs ++ (pid ∷ ys)
    → IsValid sys
    → IsValid (record sys { alive = xs ++ ys; zombies = pid ∷ sys.zombies })
ends-IsValid xs ys pid sys e v =
    let c : (k : ℕ)
        → count k (xs ++ ys) + count k (pid ∷ sys.zombies)
          ≡ count k sys.alive + count k sys.zombies =
      (λ k. count-ends k pid xs ys sys.alive sys.zombies e) in
    record {
      counts = (λ k. v.counts k ∙ sym (c k));
      single = (λ k. omega (arith, c k, v.single k));
      settled = v.settled;
    }

reaped-counts : (e t a z : ℕ) → e ≡ z → t ≡ a + z → a + z ≤ 1 → (if e == 0 then t else 0) ≡ a + 0
reaped-counts e t a z p q r = ground arith

reaps-IsValid :
    (ended : List ℕ) (sys : System)
    → ((k : ℕ) → count k ended ≡ count k sys.zombies)
    → IsValid sys
    → IsValid (record sys { master = master_signal_handler sigchld ended sys.master; zombies = [] })
unfolding master_signal_handler
reaps-IsValid ended sys e v =
    let r = worker_process_get_status-Reaped ended sys.master in
    record {
      counts = (λ k. r.counts k ∙ reaped-counts _ _ _ _ (e k) (v.counts k) (v.single k));
      single = (λ k. omega (arith, v.single k));
      settled = r.settled v.settled;
    }

rounds-IsValid :
    (forks : List Fork) (after : Master) (sys : System)
    → ((k : ℕ) → Continued k forks sys.master after)
    → ((k : ℕ)
        → count k (started_in forks sys.master) + count k sys.alive + count k sys.zombies ≤ 1)
    → IsValid sys
    → IsValid (record {
      master = after;
      alive = started_in forks sys.master ++ sys.alive;
      zombies = sys.zombies;
    })
rounds-IsValid forks after sys c f v = record {
  counts = (λ k. rw count-append (omega (arith, (c k).counts, v.counts k)));
  single = (λ k. rw count-append (f k));
  settled = (λ e. absurd (ground (arith, e, (c 0).still_open)));
}

Step-IsValid : (sys after : System) → Step sys after → IsValid sys → IsValid after
Step-IsValid sys after (signalled signo h) v = signalled-IsValid signo sys h v
Step-IsValid sys after (ends xs ys pid e) v = ends-IsValid xs ys pid sys e v
Step-IsValid sys after (reaps ended e) v = reaps-IsValid ended sys e v
Step-IsValid sys after (rounds forks m e f) v =
    rounds-IsValid forks m sys
      (λ k. subst (Rounded k forks sys.master) e (master_round-Rounded k forks sys.master)) f v

first_system-IsValid : (ncpu n : ℕ) → IsValid (first_system ncpu n)
unfolding first_system process_init
first_system-IsValid ncpu n = record {
  counts = (λ k. rw (init_workers-pids ncpu 0 n) refl);
  single = (λ k. omega arith);
  settled = (λ e. init_workers-pids ncpu 0 n);
}

-- The table of the master holds the pid of every child that has not been waited for, once, and
-- nothing else, at every moment of a run; and the flag of the end is set only when it holds none.
pub Reachable-IsValid :
    (ncpu n : ℕ) (sys : System) → Reachable (first_system ncpu n) sys → IsValid sys
Reachable-IsValid ncpu n sys starts = first_system-IsValid ncpu n
Reachable-IsValid ncpu n sys (steps before _ r s) =
    Step-IsValid before sys s (Reachable-IsValid ncpu n before r)

absent-from : (xs : List ℕ) → ((k : ℕ) → count k xs ≡ 0) → xs ≡ []
absent-from [] h = refl
absent-from (x ∷ xs) h = absurd (ground (arith, h x))

-- the children of a system with an empty table
no_children :
    (sys : System)
    → IsValid sys
    → pids sys.master.worker ≡ []
    → (sys.alive ≡ []) × (sys.zombies ≡ [])
no_children sys v e =
    let none_left : (k : ℕ) → count k sys.alive + count k sys.zombies ≡ 0 =
      (λ k. sym (v.counts k) ∙ ap (count k) e) in
    (
      absent-from sys.alive (λ k. omega (arith, none_left k)),
      absent-from sys.zombies (λ k. omega (arith, none_left k)),
    )

exits-flag :
    (forks : List Fork) (m : Master) → master_round forks m ≡ exits → m.all_workers_exit ≡ true
exits-flag forks m e = subst (Rounded 0 forks m) e (master_round-Rounded 0 forks m)

-- The master ends the program only when every worker that it started has ended and has been waited
-- for.
pub exits-no_children :
    (ncpu n : ℕ) (sys : System) (forks : List Fork)
    → Reachable (first_system ncpu n) sys
    → master_round forks sys.master ≡ exits
    → (sys.alive ≡ []) × (sys.zombies ≡ [])
exits-no_children ncpu n sys forks r e =
    let v = Reachable-IsValid ncpu n sys r in
    no_children sys v (v.settled (exits-flag forks sys.master e))

-- When the service has been told to end, no worker runs any more, and a SIGCHLD lets `waitpid` answer
-- the last of them, the next round of the master ends the program.
pub reaps-exits :
    (ncpu n : ℕ) (sys : System) (ended : List ℕ) (forks : List Fork)
    → Reachable (first_system ncpu n) sys
    → shutting_down sys.master ≡ true
    → sys.alive ≡ []
    → ended ≢ []
    → ((k : ℕ) → count k ended ≡ count k sys.zombies)
    → master_round forks (master_signal_handler sigchld ended sys.master) ≡ exits
unfolding master_signal_handler
reaps-exits ncpu n sys ended forks r d a h e =
    let v = Reachable-IsValid ncpu n sys r in
    let x = worker_process_get_status-Reaped ended sys.master in
    let gone : (k : ℕ) → count k (pids (worker_process_get_status ended sys.master).worker) ≡ 0 =
      (λ k.
        x.counts k
        ∙ reaped-counts _ _ _ _ (e k) (v.counts k) (v.single k)
        ∙ omega (arith, ap (count k) a)) in
    master_round-exits forks (worker_process_get_status ended sys.master) (
      x.empty h (absent-from (pids (worker_process_get_status ended sys.master).worker) gone)
        (x.down ∙ d))
