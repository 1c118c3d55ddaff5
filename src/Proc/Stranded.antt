-- ===== src/Proc/Stranded.antt =====
-- A master of src/process.c whose workers could not be started.
use cserv.Prelude.{ℕ, zero, suc, ◌+◌, ◌≡◌, refl, ◌∙◌, false, List, [], ◌∷◌}
use cserv.Proc.Master.{
  Signal, sigquit, sigterm, sigint, sigchld, other_signal, Master, Fork, Round, goes_on,
  notify_stop, notify_exit, spawn_worker_process, in_master, master_round,
  worker_process_get_status, master_signal_handler, process_init, init_workers,
}
use cserv.Proc.Rounds.{notify-SameTable}
use cserv.Proc.System.{Event, signal, round, master_run}

-- `waitpid` answers no pid in these events
abbrev pub Childless : List Event → Type 0
Childless [] = Unit
Childless (signal signo ended ∷ events) = (ended ≡ []) × Childless events
Childless (round forks ∷ events) = Childless events

-- neither flag is set that a round looks at
pub record Stranded (m : Master) : Type 0 where
  pub no_exit : m.all_workers_exit ≡ false
  pub no_create : m.shall_create_worker ≡ false

-- whatever comes to pass, the master goes on
abbrev pub GoesOn : Round → Type 0
GoesOn r = (after : Master) × (r ≡ goes_on after) × Stranded after

signalled-Stranded :
    (signo : Signal) (m : Master) → Stranded m → Stranded (master_signal_handler signo [] m)
unfolding master_signal_handler worker_process_get_status
signalled-Stranded sigquit m s = record { no_exit = s.no_exit; no_create = s.no_create }
signalled-Stranded sigterm m s = record { no_exit = s.no_exit; no_create = s.no_create }
signalled-Stranded sigint m s = record { no_exit = s.no_exit; no_create = s.no_create }
signalled-Stranded sigchld m s = s
signalled-Stranded other_signal m s = s

round-GoesOn : (forks : List Fork) (m : Master) → Stranded m → GoesOn (master_round forks m)
round-GoesOn forks m s =
    let n = notify_exit (notify_stop m) in
    let t = notify-SameTable m in
    let e : n.all_workers_exit ≡ false = t.all_exit ∙ s.no_exit in
    let c : n.shall_create_worker ≡ false = t.create ∙ s.no_create in
    (n, (unfold master_round in rw (e, c) refl), record { no_exit = e; no_create = c })

run-GoesOn :
    (events : List Event) (m : Master)
    → Childless events
    → Stranded m
    → GoesOn (master_run events m)
unfolding master_run
run-GoesOn [] m c s = (m, refl, s)
run-GoesOn (signal signo ended ∷ events) m (e, c) s =
    rw e (run-GoesOn events (master_signal_handler signo [] m) c (signalled-Stranded signo m s))
run-GoesOn (round forks ∷ events) m c s =
    let (after, e, t) = round-GoesOn forks m s in rw (master_run, e) (run-GoesOn events after c t)

-- when `fork` fails for every entry the table stays as it is
spawn_worker_process-none :
    (ncpu i n : ℕ)
    → spawn_worker_process (init_workers ncpu i n) [] ≡ in_master (init_workers ncpu i n)
unfolding spawn_worker_process init_workers
spawn_worker_process-none ncpu i zero = refl
spawn_worker_process-none ncpu i (suc n) = rw (spawn_worker_process-none ncpu (i + 1) n) refl

first_round-GoesOn : (ncpu n : ℕ) → GoesOn (master_round [] (process_init ncpu n))
unfolding master_round notify_stop notify_exit process_init
first_round-GoesOn ncpu n = (
  record (process_init ncpu n) { shall_create_worker = false },
  rw (spawn_worker_process-none ncpu 0 n) refl,
  record { no_exit = refl; no_create = refl },
)

-- When every `fork` of the first round fails, or there is no worker to start, no sequence of signals
-- and rounds without a child to wait for makes the master end the program: neither SIGQUIT nor
-- SIGTERM stops it.
pub master_run-GoesOn :
    (ncpu n : ℕ) (events : List Event)
    → Childless events
    → (after : Master) × (master_run (round [] ∷ events) (process_init ncpu n) ≡ goes_on after)
      × Stranded after
unfolding master_run
master_run-GoesOn ncpu n events c =
    let (after, e, t) = first_round-GoesOn ncpu n in
    rw (master_run, e) (run-GoesOn events after c t)
