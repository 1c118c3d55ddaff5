-- ===== src/Proc/Worker.antt =====
-- A worker: src/process.c from `worker_process_cycle` on, and `worker_signal_handler` of src/signal.c.
-- A descriptor is a number, and `none` is the -1 of a failed call.
use cserv.Prelude.{
  ℕ, ◌+◌, ◌-◌, ◌≡◌, Bool, true, false, ◌&&◌, Option, none, some, List, [], ◌∷◌, ◌++◌, ltb, ◌==◌,
  if◌then◌else◌,
}
use cserv.Proc.Master.{Signal, sigquit, sigterm, sigint, sigchld, other_signal}

-- Where `worker_accept_cycle` stands: at the head of its loop, in `accept` (with the accept lock, or
-- without), or behind the loop.
pub data Place : Type 0 where
  at_head at_end : Place
  in_accept : Bool → Place

-- The variables of a worker; `open_connections` are the descriptors of the coroutines that
-- `handle_connection` runs in.
pub record Worker : Type 0 where
  pub connection_count : ℕ
  pub g_shall_stop : ℕ
  pub g_shall_exit : ℕ
  pub place : Place
  pub open_connections : List ℕ

-- a worker that runs, or as it was at `exit`
pub data Life : Type 0 where
  lives ended : Worker → Life

unfoldable pub increase_conn : Worker → Worker
increase_conn w = record w { connection_count = w.connection_count + 1 }

-- The count is at least 1 here, so that `-` does not stop at 0.
unfoldable pub decrease_conn_and_check : Worker → Life
decrease_conn_and_check w =
    if w.connection_count == 1
    then ended (record w { connection_count = 0 })
    else lives (record w { connection_count = w.connection_count - 1 })

-- the end of `handle_connection`, where `rest` are the other connections
unfoldable pub handle_connection : List ℕ → Worker → Life
unfolding decrease_conn_and_check
handle_connection rest w = decrease_conn_and_check (record w { open_connections = rest })

unfoldable pub worker_can_accept : ℕ → Worker → Bool
worker_can_accept g_worker_connections w = ltb w.connection_count g_worker_connections

-- `worker_accept` up to the call of `accept`, with what `spin_trylock` would answer; when it calls
-- none it answers 0, which sends the loop to its head.
unfoldable pub worker_accept : ℕ → ℕ → Bool → Worker → Place
unfolding worker_can_accept
worker_accept g_worker_processes g_worker_connections spin_trylock w =
    if ltb 1 g_worker_processes
    then if worker_can_accept g_worker_connections w && spin_trylock
      then in_accept true
      else at_head
    else in_accept false

-- `worker_accept_cycle` from the head of the loop to the call of `accept`
unfoldable pub worker_accept_cycle : ℕ → ℕ → Bool → Worker → Life
unfolding decrease_conn_and_check worker_accept
worker_accept_cycle g_worker_processes g_worker_connections spin_trylock w =
    if w.g_shall_stop == 0
    then if w.g_shall_exit == 0
      then lives (record w {
        place = worker_accept g_worker_processes g_worker_connections spin_trylock w;
      })
      else ended w
    else decrease_conn_and_check (record w { place = at_end })

-- The rest of a round, from what `accept` answers and whether `dispatch_coro` succeeds. The lock is
-- free again in every case.
unfoldable pub accepted : Option ℕ → Bool → Worker → Worker
unfolding increase_conn
accepted none dispatched w = record w { place = at_head }
accepted (some connfd) dispatched w =
    if connfd == 0
    then record w { place = at_head }
    else if dispatched
    then increase_conn
        (record w { place = at_head; open_connections = connfd ∷ w.open_connections })
    else record w { place = at_head }

unfoldable pub worker_signal_handler : Signal → Worker → Worker
worker_signal_handler sigquit w = record w { g_shall_stop = 1 }
worker_signal_handler sigterm w = record w { g_shall_exit = 1 }
worker_signal_handler sigint w = record w { g_shall_exit = 1 }
worker_signal_handler sigchld w = w
worker_signal_handler other_signal w = w

-- `worker_process_cycle` up to `schedule_cycle`, from whether `worker_init_proc`, `schedule_init` or
-- `event_loop_init` ends the program, and the variables that the worker has from its master. The
-- first `dispatch_coro` is taken to succeed.
unfoldable pub worker_process_cycle : Bool → ℕ → ℕ → Life
worker_process_cycle init_failed g_shall_stop g_shall_exit =
    let w : Worker = record {
      connection_count = 1;
      g_shall_stop = g_shall_stop;
      g_shall_exit = g_shall_exit;
      place = at_head;
      open_connections = [];
    } in
    if init_failed then ended w else lives w

-- The steps of a worker with `n` processes of at most `c` connections each: the accepting coroutine
-- goes to `accept`, `accept` answers, a connection has been handled, or a signal comes.
pub data Step (n c : ℕ) (w : Worker) : Life → Type 0 where
  turns :
      (spin_trylock : Bool)
      → w.place ≡ at_head
      → Step n c w (worker_accept_cycle n c spin_trylock w)
  answers :
      (locked : Bool) (connfd : Option ℕ) (dispatched : Bool)
      → w.place ≡ in_accept locked
      → Step n c w (lives (accepted connfd dispatched w))
  handles :
      (xs ys : List ℕ) (connfd : ℕ)
      → w.open_connections ≡ xs ++ (connfd ∷ ys)
      → Step n c w (handle_connection (xs ++ ys) w)
  signalled : (signo : Signal) → Step n c w (lives (worker_signal_handler signo w))

pub data Reachable (n c : ℕ) (first : Life) : Life → Type 0 where
  starts : Reachable n c first first
  steps :
      (w : Worker) (after : Life)
      → Reachable n c first (lives w)
      → Step n c w after
      → Reachable n c first after
