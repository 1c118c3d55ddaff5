-- ===== src/Io/Event.antt =====
-- src/event.h and src/event.c: the table of events by file descriptor, and the calls of epoll.
use cserv.Prelude.{
  ℕ, ◌+◌, Bool, true, false, ◌||◌, Option, none, some, List, [], ◌∷◌, leb, ◌==◌, if◌then◌else◌,
}
use cserv.Coro.State.{Schedule}
use cserv.Coro.Sched.{wakeup_coro, wakeup_coro_priority}

-- `event_t`, and a mask of it: EVNET_NONE is the mask without either
pub data EventType : Type 0 where
  readable writable : EventType

pub record Mask : Type 0 where
  pub can_read : Bool
  pub can_write : Bool

abbrev pub evnet_none : Mask
evnet_none = record { can_read = false; can_write = false }

-- `mask | what`, `mask & ~what` and `mask == EVNET_NONE`
abbrev pub merge : EventType → Mask → Mask
merge readable mask = record mask { can_read = true }
merge writable mask = record mask { can_write = true }

abbrev pub clear : EventType → Mask → Mask
clear readable mask = record mask { can_read = false }
clear writable mask = record mask { can_write = false }

abbrev pub is_none : Mask → Bool
is_none mask = if mask.can_read || mask.can_write then false else true

-- the callbacks that src/syscall_hook.c registers
pub data Proc : Type 0 where
  event_rw_callback event_conn_callback : Proc

-- `struct fd_event`; `args` is a coroutine
pub record FdEvent : Type 0 where
  pub mask : Mask
  pub proc : Proc
  pub args : ℕ

pub data EpollOp : Type 0 where
  epoll_ctl_add epoll_ctl_mod epoll_ctl_del : EpollOp

-- a call of `epoll_ctl`
pub record EpollCall : Type 0 where
  pub op : EpollOp
  pub fd : ℕ
  pub events : Mask

-- `struct event_loop`, with a record of the calls of `epoll_ctl`, the latest first
pub record EventLoop : Type 0 where
  pub max_conn : ℕ
  pub array : ℕ → FdEvent
  pub calls : List EpollCall

unfoldable pub set_event : (ℕ → FdEvent) → ℕ → FdEvent → ℕ → FdEvent
set_event array fd fe k = if k == fd then fe else array k

-- what `add_fd_event` returns: 0, -1 with ERANGE, or -2
pub data AddResult : Type 0 where
  added out_of_range refused : AddResult

-- `ok` says whether `epoll_ctl` succeeds.
unfoldable pub add_fd_event : Bool → ℕ → EventType → Proc → ℕ → EventLoop → AddResult × EventLoop
unfolding set_event
add_fd_event ok fd what proc args evloop =
    let fe = evloop.array fd in
    let mask = merge what fe.mask in
    let op = if is_none fe.mask then epoll_ctl_add else epoll_ctl_mod in
    let called = record evloop {
      calls = (record { op = op; fd = fd; events = mask }) ∷ evloop.calls;
    } in
    if leb evloop.max_conn fd
    then (out_of_range, evloop)
    else if ok
    then (
      added,
      record called {
        array = set_event evloop.array fd (record { mask = mask; proc = proc; args = args });
      },
    )
    else (refused, called)

unfoldable pub del_fd_event : ℕ → EventType → EventLoop → EventLoop
unfolding set_event
del_fd_event fd what evloop =
    let fe = evloop.array fd in
    let mask = clear what fe.mask in
    let op = if is_none mask then epoll_ctl_del else epoll_ctl_mod in
    if leb evloop.max_conn fd then evloop else if is_none fe.mask then evloop else record evloop {
      array = set_event evloop.array fd (record fe { mask = mask });
      calls = (record { op = op; fd = fd; events = mask }) ∷ evloop.calls;
    }

module _ {F : Type 0} where
  -- `fe->proc(fe->args)`
  unfoldable pub call_proc : FdEvent → Schedule F → Schedule F
  call_proc fe sched = elim fe.proc [
    | event_rw_callback ↦ wakeup_coro sched fe.args
    | event_conn_callback ↦ wakeup_coro_priority sched fe.args
  ]

  -- the descriptors that `epoll_wait` answers, none when it fails or times out
  unfoldable pub event_cycle : EventLoop → List ℕ → Schedule F → Schedule F
  unfolding call_proc
  event_cycle evloop [] sched = sched
  event_cycle evloop (fd ∷ ready) sched =
      event_cycle evloop ready (call_proc (evloop.array fd) sched)

-- `calloc` clears the table. The three answers say whether `calloc`, `epoll_create` and `malloc`
-- succeed; otherwise the program ends.
unfoldable pub event_loop_init : Bool → Bool → Bool → ℕ → Option EventLoop
event_loop_init true true true max_conn = some (record {
  max_conn = max_conn + 128;
  array = (λ fd. record { mask = evnet_none; proc = event_rw_callback; args = 0 });
  calls = [];
})
event_loop_init _ _ _ max_conn = none
