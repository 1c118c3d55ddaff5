-- ===== src/Proc/Tables.antt =====
-- What the loops of src/process.c do to the pids in the table of workers.
use cserv.Prelude.{
  ℕ, zero, suc, ◌+◌, ◌≡◌, refl, arith, true, none, some, List, [], ◌∷◌, ◌==◌, if◌then◌else◌, one_at,
  count,
}
use cserv.Proc.Master.{
  Process, process, Fork, fork_failed, fork_child, fork_parent, Spawned, in_master, in_worker,
  spawned_after, spawn_worker_process, worker_empty, clear_pid, init_workers,
}
use cserv.Proc.System.{pids, started}

-- the pid is gone, and the others are as they were
pub count-clear_pid :
    (k pid : ℕ) (worker : List Process)
    → count k (pids (clear_pid pid worker)) ≡ (if k == pid then 0 else count k (pids worker))
unfolding clear_pid
count-clear_pid k pid [] = ground arith
count-clear_pid k pid (process none cpuid ∷ worker) = count-clear_pid k pid worker
count-clear_pid k pid (process (some q) cpuid ∷ worker) =
    ground (arith, count-clear_pid k pid worker)

pub worker_empty-pids : (worker : List Process) → worker_empty worker ≡ true → pids worker ≡ []
unfolding worker_empty
worker_empty-pids [] e = refl
worker_empty-pids (process none cpuid ∷ worker) e = worker_empty-pids worker e
worker_empty-pids (process (some q) cpuid ∷ worker) e = absurd (ground (arith, e))

pub pids-worker_empty : (worker : List Process) → pids worker ≡ [] → worker_empty worker ≡ true
unfolding worker_empty
pids-worker_empty [] e = refl
pids-worker_empty (process none cpuid ∷ worker) e = pids-worker_empty worker e
pids-worker_empty (process (some q) cpuid ∷ worker) e = absurd (ground (arith, e))

pub init_workers-pids : (ncpu i n : ℕ) → pids (init_workers ncpu i n) ≡ []
unfolding init_workers
init_workers-pids ncpu i zero = refl
init_workers-pids ncpu i (suc n) = init_workers-pids ncpu (i + 1) n

-- how often a pid stands in the table that the master goes on with
abbrev pub Counted : ℕ → ℕ → Spawned → Type 0
Counted k n (in_master worker) = count k (pids worker) ≡ n
Counted k n (in_worker cpuid) = Unit

Counted-none :
    (k n cpuid : ℕ) (r : Spawned)
    → Counted k n r
    → Counted k n (spawned_after (process none cpuid) r)
Counted-none k n cpuid (in_master worker) c = c
Counted-none k n cpuid (in_worker _) c = tt

Counted-some :
    (k n m pid cpuid : ℕ) (r : Spawned)
    → m ≡ one_at k pid + n
    → Counted k n r
    → Counted k m (spawned_after (process (some pid) cpuid) r)
Counted-some k n m pid cpuid (in_master worker) e c = omega (arith, e, c)
Counted-some k n m pid cpuid (in_worker _) e c = tt

-- The pids in the table are those that were there, and those of the children that were started.
pub spawn_worker_process-Counted :
    (k : ℕ) (worker : List Process) (forks : List Fork)
    → Counted k
        (count k (pids worker) + count k (started worker forks))
        (spawn_worker_process worker forks)
unfolding spawn_worker_process started
spawn_worker_process-Counted k [] forks = refl
spawn_worker_process-Counted k (process (some pid) cpuid ∷ worker) forks =
    Counted-some k _ _ pid cpuid _ (omega arith) (spawn_worker_process-Counted k worker forks)
spawn_worker_process-Counted k (process none cpuid ∷ worker) [] =
    Counted-none k _ cpuid _ (spawn_worker_process-Counted k worker [])
spawn_worker_process-Counted k (process none cpuid ∷ worker) (fork_failed ∷ forks) =
    Counted-none k _ cpuid _ (spawn_worker_process-Counted k worker forks)
spawn_worker_process-Counted k (process none cpuid ∷ worker) (fork_child ∷ forks) = tt
spawn_worker_process-Counted k (process none cpuid ∷ worker) (fork_parent pid ∷ forks) =
    Counted-some k (count k (pids worker) + count k (started worker forks)) _ pid cpuid _
      (omega arith) (spawn_worker_process-Counted k worker forks)
