-- ===== src/Proc/System.antt =====
-- The master of src/process.c with its children, as the system sees them.
use cserv.Prelude.{ℕ, ◌+◌, ◌≤◌, ◌≡◌, ◌≢◌, true, false, none, some, List, [], ◌∷◌, ◌++◌, count}
use cserv.Proc.Master.{
  Process, process, Signal, sigchld, Master, Fork, fork_failed, fork_child, fork_parent, Round,
  goes_on, exits, becomes_worker, master_round, master_signal_handler, process_init,
}

-- the children that the master knows of
abbrev pub pids : List Process → List ℕ
pids [] = []
pids (process none cpuid ∷ worker) = pids worker
pids (process (some pid) cpuid ∷ worker) = pid ∷ pids worker

-- The children that `spawn_worker_process` starts: one for each entry without a pid, as far as `fork`
-- succeeds.
unfoldable pub started : List Process → List Fork → List ℕ
started [] forks = []
started (process (some pid) cpuid ∷ worker) forks = started worker forks
started (process none cpuid ∷ worker) [] = started worker []
started (process none cpuid ∷ worker) (fork_failed ∷ forks) = started worker forks
started (process none cpuid ∷ worker) (fork_child ∷ forks) = started worker forks
started (process none cpuid ∷ worker) (fork_parent pid ∷ forks) = pid ∷ started worker forks

-- the children started in a round
unfoldable pub started_in : List Fork → Master → List ℕ
unfolding started
started_in forks master = elim master.shall_create_worker [
  | true ↦ started master.worker forks
  | false ↦ []
]

-- `alive` are the workers that run, `zombies` those that have ended and that `waitpid` has yet to
-- answer.
pub record System : Type 0 where
  pub master : Master
  pub alive : List ℕ
  pub zombies : List ℕ

-- The steps: a signal that is not SIGCHLD; a worker ends; SIGCHLD, where `waitpid` answers all that
-- have ended, in some order; and a round of the master, where `fork` answers pids that are not in
-- use. The handlers run between the rounds.
pub data Step (sys : System) : System → Type 0 where
  signalled :
      (signo : Signal)
      → signo ≢ sigchld
      → Step sys (record sys { master = master_signal_handler signo [] sys.master })
  ends :
      (xs ys : List ℕ) (pid : ℕ)
      → sys.alive ≡ xs ++ (pid ∷ ys)
      → Step sys (record sys { alive = xs ++ ys; zombies = pid ∷ sys.zombies })
  reaps :
      (ended : List ℕ)
      → ((k : ℕ) → count k ended ≡ count k sys.zombies)
      → Step sys
          (record sys { master = master_signal_handler sigchld ended sys.master; zombies = [] })
  rounds :
      (forks : List Fork) (after : Master)
      → master_round forks sys.master ≡ goes_on after
      → ((k : ℕ)
          → count k (started_in forks sys.master) + count k sys.alive + count k sys.zombies ≤ 1)
      → Step sys (record {
        master = after;
        alive = started_in forks sys.master ++ sys.alive;
        zombies = sys.zombies;
      })

pub data Reachable (first : System) : System → Type 0 where
  starts : Reachable first first
  steps : (sys after : System) → Reachable first sys → Step sys after → Reachable first after

-- the master alone, as `process_init` leaves it
unfoldable pub first_system : ℕ → ℕ → System
first_system ncpu n = record { master = process_init ncpu n; alive = []; zombies = [] }

-- what happens to a master, one after the other: a signal, with the pids that `waitpid` answers if it
-- is SIGCHLD, or a round, with the answers of `fork`
pub data Event : Type 0 where
  signal : Signal → List ℕ → Event
  round : List Fork → Event

unfoldable pub master_run : List Event → Master → Round
master_run [] master = goes_on master
master_run (signal signo ended ∷ events) master =
    master_run events (master_signal_handler signo ended master)
master_run (round forks ∷ events) master = elim (master_round forks master) [
  | goes_on after ↦ master_run events after
  | exits ↦ exits
  | becomes_worker cpuid ↦ becomes_worker cpuid
]
