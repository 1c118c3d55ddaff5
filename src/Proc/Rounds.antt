-- ===== src/Proc/Rounds.antt =====
-- What a round of the master and a SIGCHLD come to (src/process.c, src/signal.c).
use cserv.Prelude.{
  ℕ, ◌+◌, ◌≡◌, ◌≢◌, refl, sym, ap, ◌∙◌, arith, Bool, true, false, ◌&&◌, Bool-cases, none, some, inl,
  inr, ◌⊎◌, List, [], ◌∷◌, ◌==◌, if◌then◌else◌, count,
}
use cserv.Proc.Master.{
  Process, process, Master, Fork, Spawned, in_master, in_worker, spawn_worker_process, worker_empty,
  clear_pid, Round, goes_on, exits, becomes_worker, notify_stop, notify_exit, spawned_round,
  master_round, shutting_down, worker_exit_handler, worker_process_get_status,
}
use cserv.Proc.System.{pids, started, started_in}
use cserv.Proc.Tables.{
  count-clear_pid, worker_empty-pids, pids-worker_empty, Counted, spawn_worker_process-Counted,
}

-- the signals that are passed on change neither the table nor what else a round looks at
pub record SameTable (before after : Master) : Type 0 where
  pub worker : after.worker ≡ before.worker
  pub all_exit : after.all_workers_exit ≡ before.all_workers_exit
  pub create : after.shall_create_worker ≡ before.shall_create_worker

pub notify-SameTable : (m : Master) → SameTable m (notify_exit (notify_stop m))
unfolding notify_stop notify_exit
notify-SameTable m = ground arith

-- what a round says of the table
pub record Continued (k : ℕ) (forks : List Fork) (before after : Master) : Type 0 where
  pub counts :
      count k (pids after.worker) ≡ count k (pids before.worker) + count k (started_in forks before)
  pub was_open : before.all_workers_exit ≡ false
  pub still_open : after.all_workers_exit ≡ false

abbrev pub Rounded : ℕ → List Fork → Master → Round → Type 0
Rounded k forks m (goes_on after) = Continued k forks m after
Rounded k forks m exits = m.all_workers_exit ≡ true
Rounded k forks m (becomes_worker cpuid) = Unit

started_in-all :
    (forks : List Fork) (m : Master)
    → m.shall_create_worker ≡ true
    → started_in forks m ≡ started m.worker forks
unfolding started_in
started_in-all forks m e = ground (arith, e)

started_in-none :
    (forks : List Fork) (m : Master) → m.shall_create_worker ≡ false → started_in forks m ≡ []
unfolding started_in
started_in-none forks m e = ground (arith, e)

spawned-Rounded :
    (k : ℕ) (forks : List Fork) (m n : Master) (s : Spawned)
    → n.all_workers_exit ≡ false
    → m.all_workers_exit ≡ false
    → started_in forks m ≡ started m.worker forks
    → Counted k (count k (pids m.worker) + count k (started m.worker forks)) s
    → Rounded k forks m (spawned_round n s)
spawned-Rounded k forks m n (in_master worker) e f g c = record {
  counts = rw g c;
  was_open = f;
  still_open = e;
}
spawned-Rounded k forks m n (in_worker cpuid) e f g c = tt

pub master_round-Rounded :
    (k : ℕ) (forks : List Fork) (m : Master) → Rounded k forks m (master_round forks m)
master_round-Rounded k forks m =
    let n = notify_exit (notify_stop m) in
    let s = notify-SameTable m in
    elim (Bool-cases n.all_workers_exit) [
      | inl e ↦ unfold master_round in rw e (sym s.all_exit ∙ e)
      | inr e ↦ elim (Bool-cases n.shall_create_worker) [
        | inl c ↦
            unfold master_round in
            rw (e, c)
              (spawned-Rounded k forks m n (spawn_worker_process n.worker forks) e
                (sym s.all_exit ∙ e) (started_in-all forks m (sym s.create ∙ c))
                (rw s.worker (spawn_worker_process-Counted k m.worker forks)))
        | inr c ↦
            unfold master_round in
            rw (e, c)
              (record {
                counts =
                    ap (λ w. count k (pids w)) s.worker
                    ∙ omega (arith, ap (count k) (started_in-none forks m (sym s.create ∙ c)));
                was_open = sym s.all_exit ∙ e;
                still_open = e;
              })
      ]
    ]

-- when the workers have all ended, and the service is to end, the round ends the program
pub master_round-exits :
    (forks : List Fork) (m : Master) → m.all_workers_exit ≡ true → master_round forks m ≡ exits
unfolding master_round
master_round-exits forks m e =
    let s = notify-SameTable m in
    let a : (notify_exit (notify_stop m)).all_workers_exit ≡ true = s.all_exit ∙ e in
    rw (master_round, a) refl

-- the flag is set only with an empty table
abbrev pub Settled : Master → Type 0
Settled m = m.all_workers_exit ≡ true → pids m.worker ≡ []

clear_pid-empty :
    (pid : ℕ) (worker : List Process) → pids worker ≡ [] → pids (clear_pid pid worker) ≡ []
unfolding clear_pid
clear_pid-empty pid [] e = refl
clear_pid-empty pid (process none cpuid ∷ worker) e = clear_pid-empty pid worker e
clear_pid-empty pid (process (some q) cpuid ∷ worker) e = absurd (ground (arith, e))

-- one worker has ended
pub record Exited (pid : ℕ) (before after : Master) : Type 0 where
  pub counts :
      (k : ℕ) → count k (pids after.worker) ≡ (if k == pid then 0 else count k (pids before.worker))
  pub down : shutting_down after ≡ shutting_down before
  pub settled : Settled before → Settled after
  pub empty : pids after.worker ≡ [] → shutting_down after ≡ true → after.all_workers_exit ≡ true

exit_flag : (w d a : Bool) → (if w && d then true else a) ≡ true → (w ≡ true) ⊎ (a ≡ true)
exit_flag true true a e = inl refl
exit_flag true false a e = inr e
exit_flag false d a e = inr e

worker_exit_handler-Exited : (pid : ℕ) (m : Master) → Exited pid m (worker_exit_handler pid m)
unfolding worker_exit_handler
worker_exit_handler-Exited pid m = record {
  counts = (λ k. count-clear_pid k pid m.worker);
  down = refl;
  settled = (λ s e.
      elim (exit_flag (worker_empty (clear_pid pid m.worker)) (shutting_down m) m.all_workers_exit
        e) [
          | inl w ↦ worker_empty-pids (clear_pid pid m.worker) w
          | inr a ↦ clear_pid-empty pid m.worker (s a)
        ]);
  empty = (λ e d. rw (pids-worker_empty (clear_pid pid m.worker) e, d) refl);
}

-- all those that `waitpid` answers have ended
pub record Reaped (ended : List ℕ) (before after : Master) : Type 0 where
  pub counts :
      (k : ℕ)
      → count k (pids after.worker)
        ≡ (if count k ended == 0 then count k (pids before.worker) else 0)
  pub down : shutting_down after ≡ shutting_down before
  pub settled : Settled before → Settled after
  pub empty :
      ended ≢ []
      → pids after.worker ≡ []
      → shutting_down after ≡ true
      → after.all_workers_exit ≡ true

pub worker_process_get_status-Reaped :
    (ended : List ℕ) (m : Master) → Reaped ended m (worker_process_get_status ended m)
unfolding worker_process_get_status
worker_process_get_status-Reaped [] m = record {
  counts = (λ k. refl);
  down = refl;
  settled = (λ s. s);
  empty = (λ h. absurd (h refl));
}
worker_process_get_status-Reaped (pid ∷ []) m =
    let x = worker_exit_handler-Exited pid m in
    record {
      counts = (λ k. ground (arith, x.counts k));
      down = x.down;
      settled = x.settled;
      empty = (λ h. x.empty);
    }
worker_process_get_status-Reaped (pid ∷ pid' ∷ ended) m =
    let x = worker_exit_handler-Exited pid m in
    let r = worker_process_get_status-Reaped (pid' ∷ ended) (worker_exit_handler pid m) in
    record {
      counts = (λ k. ground (arith, x.counts k, r.counts k));
      down = r.down ∙ x.down;
      settled = (λ s. r.settled (x.settled s));
      empty = (λ h. r.empty (λ e. ground (arith, e)));
    }
