-- ===== src/Io/Hook.antt =====
-- src/syscall_hook.c: calls that put the coroutine to sleep until the descriptor is ready.
use cserv.Prelude.{ℕ, Bool, Option, none, some, List, [], ◌∷◌, if◌then◌else◌}
use cserv.Io.Event.{
  EventType, readable, writable, Proc, event_rw_callback, event_conn_callback, EventLoop, added,
  add_fd_event, del_fd_event,
}

-- What another coroutine does to the table while this one sleeps in `schedule_timeout`: a call of
-- `add_fd_event`, with the answer of `epoll_ctl`, or of `del_fd_event`.
pub data Access : Type 0 where
  adds : Bool → ℕ → EventType → Proc → ℕ → Access
  deletes : ℕ → EventType → Access

unfoldable pub access : Access → EventLoop → EventLoop
access (adds ok fd what proc args) evloop = (add_fd_event ok fd what proc args evloop).1
access (deletes fd what) evloop = del_fd_event fd what evloop

-- `schedule_timeout`, as far as the table is concerned: all that the others do, in order
unfoldable pub sleep : List Access → EventLoop → EventLoop
sleep [] evloop = evloop
sleep (a ∷ others) evloop = sleep others (access a evloop)

-- What happens in a round of one of the loops: the system call answers a number that is not negative,
-- or it fails with EINTR, with EAGAIN or EWOULDBLOCK, or otherwise. When the descriptor is not ready,
-- the answer of `epoll_ctl` follows, what the other coroutines do to the table during the sleep, and
-- what `is_wakeup_by_timeout` says after it.
pub data Attempt : Type 0 where
  done : ℕ → Attempt
  interrupted : Attempt
  not_ready : Bool → List Access → Bool → Attempt
  broken : Attempt

-- A number, or -1, -2 and -3 in turn; with -3 `errno` is ETIME.
pub data Outcome : Type 0 where
  returned : ℕ → Outcome
  failed : Outcome
  not_added : Outcome
  timed_out : Outcome

-- The loop of all hooks but `connect`. `none` says that the system has not answered any more.
unfoldable pub retry :
    ℕ → EventType → Proc → ℕ → List Attempt → EventLoop → Option (Outcome × EventLoop)
retry fd what proc self [] evloop = none
retry fd what proc self (done n ∷ attempts) evloop = some (returned n, evloop)
retry fd what proc self (interrupted ∷ attempts) evloop = retry fd what proc self attempts evloop
retry fd what proc self (broken ∷ attempts) evloop = some (failed, evloop)
retry fd what proc self (not_ready ok others by_timeout ∷ attempts) evloop =
    let (result, waiting) = add_fd_event ok fd what proc self evloop in
    let woken = del_fd_event fd what (sleep others waiting) in
    let again = retry fd what proc self attempts woken in
    elim result [
      | added ↦ if by_timeout then some (timed_out, woken) else again
      | _ ↦ some (not_added, waiting)
    ]

unfoldable pub read : ℕ → ℕ → List Attempt → EventLoop → Option (Outcome × EventLoop)
unfolding retry
read fd self = retry fd readable event_rw_callback self

unfoldable pub recv : ℕ → ℕ → List Attempt → EventLoop → Option (Outcome × EventLoop)
unfolding retry
recv fd self = retry fd readable event_rw_callback self

unfoldable pub write : ℕ → ℕ → List Attempt → EventLoop → Option (Outcome × EventLoop)
unfolding retry
write fd self = retry fd writable event_rw_callback self

unfoldable pub send : ℕ → ℕ → List Attempt → EventLoop → Option (Outcome × EventLoop)
unfolding retry
send fd self = retry fd writable event_rw_callback self

-- what `accept` returns: the descriptor, what the loop returned, or that an option of the connection
-- could not be set, and the connection has been closed: -4, -5 or -6, without its sign, and the
-- descriptor
pub data Accepted : Type 0 where
  connection : ℕ → Accepted
  unaccepted : Outcome → Accepted
  closed : ℕ → ℕ → Accepted

-- the code behind the loop of `accept`, with the answers of `set_nonblock`, `enable_tcp_no_delay`
-- and `set_keep_alive`
unfoldable pub set_options : Bool → Bool → Bool → Outcome → Accepted
set_options nonblock no_delay keep_alive (returned connfd) =
    if nonblock
    then if no_delay
      then if keep_alive then connection connfd else closed 6 connfd
      else closed 5 connfd
    else closed 4 connfd
set_options nonblock no_delay keep_alive outcome = unaccepted outcome

unfoldable pub accept :
    ℕ → ℕ → Bool → Bool → Bool → List Attempt → EventLoop → Option (Accepted × EventLoop)
unfolding retry set_options
accept fd self nonblock no_delay keep_alive attempts evloop =
    elim (retry fd readable event_conn_callback self attempts evloop) [
      | none ↦ none
      | some (outcome, after) ↦ some (set_options nonblock no_delay keep_alive outcome, after)
    ]

-- what the first call of `connect` answers: 0, or -1 with EINPROGRESS or otherwise
pub data Connecting : Type 0 where
  at_once in_progress not_possible : Connecting

-- 0, or -1 to -4 in turn; with -3 `errno` is ETIMEDOUT
pub data Connected : Type 0 where
  connected unreachable no_event too_late connect_error : Connected

-- `ok` is the answer of `epoll_ctl`, `others` what the other coroutines do during the sleep,
-- `by_timeout` the answer of `is_wakeup_by_timeout`, and `established` says whether `getsockopt` reports no error.
unfoldable pub connect :
    ℕ → ℕ → Connecting → Bool → List Access → Bool → Bool → EventLoop → Connected × EventLoop
connect fd self at_once ok others by_timeout established evloop = (connected, evloop)
connect fd self not_possible ok others by_timeout established evloop = (unreachable, evloop)
connect fd self in_progress ok others by_timeout established evloop =
    let (result, waiting) = add_fd_event ok fd writable event_conn_callback self evloop in
    let woken = del_fd_event fd writable (sleep others waiting) in
    elim result [
      | added ↦
          if by_timeout
          then (too_late, woken)
          else if established
          then (connected, woken)
          else (connect_error, woken)
      | _ ↦ (no_event, waiting)
    ]
