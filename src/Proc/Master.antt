-- ===== src/Proc/Master.antt =====
-- The master process: src/process.c, with the handlers of src/signal.c that run in it. A pid is a
-- number, and `none` is INVALID_PID.
use cserv.Prelude.{
  ℕ, zero, suc, ◌+◌, ◌%◌, Bool, true, false, ◌&&◌, Option, none, some, List, [], ◌∷◌, ◌==◌,
  if◌then◌else◌,
}

-- `struct process`: its pid, and the cpu that it is bound to
pub data Process : Type 0 where
  process : Option ℕ → ℕ → Process

-- the signals that have a handler; `other_signal` is SIGHUP
pub data Signal : Type 0 where
  sigquit sigterm sigint sigchld other_signal : Signal

abbrev pub shutdown_signal : Signal
shutdown_signal = sigquit

abbrev pub terminate_signal : Signal
terminate_signal = sigint

-- The variables of the master. `worker` has the first `g_worker_processes` entries of the array;
-- `killed` records the calls of `kill`, the latest first. `g_shall_stop` and `g_shall_exit` are 0, 1
-- or 2.
pub record Master : Type 0 where
  pub worker : List Process
  pub all_workers_exit : Bool
  pub shall_create_worker : Bool
  pub g_shall_stop : ℕ
  pub g_shall_exit : ℕ
  pub killed : List (ℕ × Signal)

-- the loop of `worker_empty`
unfoldable pub worker_empty : List Process → Bool
worker_empty [] = true
worker_empty (process none cpuid ∷ worker) = worker_empty worker
worker_empty (process (some pid) cpuid ∷ worker) = false

-- what `fork` answers: -1, 0 in the child, or the pid of the child in the parent
pub data Fork : Type 0 where
  fork_failed fork_child : Fork
  fork_parent : ℕ → Fork

-- In which process `spawn_worker_process` returns; in a child, with the cpu that it is bound to. What
-- the child does at first in `fork_worker` (its log and its cpu) is not part of the master.
pub data Spawned : Type 0 where
  in_master : List Process → Spawned
  in_worker : ℕ → Spawned

abbrev pub spawned_after : Process → Spawned → Spawned
spawned_after p (in_master worker) = in_master (p ∷ worker)
spawned_after p (in_worker cpuid) = in_worker cpuid

-- The loop of `spawn_worker_process`, with the answers of `fork`, one for each call. When they run out
-- `fork` has failed.
unfoldable pub spawn_worker_process : List Process → List Fork → Spawned
spawn_worker_process [] forks = in_master []
spawn_worker_process (process (some pid) cpuid ∷ worker) forks =
    spawned_after (process (some pid) cpuid) (spawn_worker_process worker forks)
spawn_worker_process (process none cpuid ∷ worker) [] =
    spawned_after (process none cpuid) (spawn_worker_process worker [])
spawn_worker_process (process none cpuid ∷ worker) (fork_failed ∷ forks) =
    spawned_after (process none cpuid) (spawn_worker_process worker forks)
spawn_worker_process (process none cpuid ∷ worker) (fork_child ∷ forks) = in_worker cpuid
spawn_worker_process (process none cpuid ∷ worker) (fork_parent pid ∷ forks) =
    spawned_after (process (some pid) cpuid) (spawn_worker_process worker forks)

-- the calls of `kill` in the loop of `send_signal_to_workers`
unfoldable pub send_signal_to_workers :
    List Process → Signal → List (ℕ × Signal) → List (ℕ × Signal)
send_signal_to_workers [] signo killed = killed
send_signal_to_workers (process none cpuid ∷ worker) signo killed =
    send_signal_to_workers worker signo killed
send_signal_to_workers (process (some pid) cpuid ∷ worker) signo killed =
    send_signal_to_workers worker signo ((pid, signo) ∷ killed)

-- what a round of `master_process_cycle` comes to: the next one, the end of the program, or the code
-- behind the loop, in a worker
pub data Round : Type 0 where
  goes_on : Master → Round
  exits : Round
  becomes_worker : ℕ → Round

unfoldable pub notify_stop : Master → Master
unfolding send_signal_to_workers
notify_stop master =
    if master.g_shall_stop == 1
    then record master {
      killed = send_signal_to_workers master.worker shutdown_signal master.killed;
      g_shall_stop = 2;
    }
    else master

unfoldable pub notify_exit : Master → Master
unfolding send_signal_to_workers
notify_exit master =
    if master.g_shall_exit == 1
    then record master {
      killed = send_signal_to_workers master.worker terminate_signal master.killed;
      g_shall_exit = 2;
    }
    else master

-- the master once workers have been spawned
abbrev pub spawned_round : Master → Spawned → Round
spawned_round master (in_master worker) =
    goes_on (record master { worker = worker; shall_create_worker = false })
spawned_round master (in_worker cpuid) = becomes_worker cpuid

-- A round of the loop; `log_scan_write` and the sleep at its end are left out.
unfoldable pub master_round : List Fork → Master → Round
unfolding notify_stop notify_exit spawn_worker_process
master_round forks master =
    let master = notify_exit (notify_stop master) in
    if master.all_workers_exit
    then exits
    else if master.shall_create_worker
    then spawned_round master (spawn_worker_process master.worker forks)
    else goes_on master

-- the loop of `worker_exit_handler`
unfoldable pub clear_pid : ℕ → List Process → List Process
clear_pid pid [] = []
clear_pid pid (process none cpuid ∷ worker) = process none cpuid ∷ clear_pid pid worker
clear_pid pid (process (some q) cpuid ∷ worker) =
    process (if q == pid then none else some q) cpuid ∷ clear_pid pid worker

-- `g_shall_stop || g_shall_exit`
abbrev pub shutting_down : Master → Bool
shutting_down master =
    if master.g_shall_stop == 0 then (if master.g_shall_exit == 0 then false else true) else true

unfoldable pub worker_exit_handler : ℕ → Master → Master
unfolding clear_pid worker_empty
worker_exit_handler pid master =
    let worker = clear_pid pid master.worker in
    record master {
      worker = worker;
      shall_create_worker = if shutting_down master then master.shall_create_worker else true;
      all_workers_exit =
          if worker_empty worker && shutting_down master then true else master.all_workers_exit;
    }

-- The loop of `worker_process_get_status`, over the pids that `waitpid` answers; its calls of
-- `log_worker_flush_and_reset` change the loggers only, and are modelled with them.
unfoldable pub worker_process_get_status : List ℕ → Master → Master
unfolding worker_exit_handler
worker_process_get_status [] master = master
worker_process_get_status (pid ∷ pids) master =
    worker_process_get_status pids (worker_exit_handler pid master)

unfoldable pub master_signal_handler : Signal → List ℕ → Master → Master
unfolding worker_process_get_status
master_signal_handler sigquit pids master = record master { g_shall_stop = 1 }
master_signal_handler sigterm pids master = record master { g_shall_exit = 1 }
master_signal_handler sigint pids master = record master { g_shall_exit = 1 }
master_signal_handler sigchld pids master = worker_process_get_status pids master
master_signal_handler other_signal pids master = master

-- the loop of `process_init`, for the entries from `i` on
unfoldable pub init_workers : ℕ → ℕ → ℕ → List Process
init_workers ncpu i zero = []
init_workers ncpu i (suc n) = process none (i % ncpu) ∷ init_workers ncpu (i + 1) n

-- the variables as they are when `master_process_cycle` begins
unfoldable pub process_init : ℕ → ℕ → Master
unfolding init_workers
process_init ncpu g_worker_processes = record {
  worker = init_workers ncpu 0 g_worker_processes;
  all_workers_exit = false;
  shall_create_worker = true;
  g_shall_stop = 0;
  g_shall_exit = 0;
  killed = [];
}
