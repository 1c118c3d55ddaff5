-- ===== src/Coro/State.antt =====
-- The state of src/coro/sched.c.
use cserv.Prelude.{ℕ, ◌+◌, ◌-◌, ◌%◌, Bool, List, leb, ◌==◌, if◌then◌else◌}
use cserv.Util.Rbtree.Tree.{Tree}
use cserv.Util.Memcache.Defs.{Memcache}

-- `struct timer_node`, at an address of the cache. `root` holds the coroutines by their `coro_id`.
pub record TimerNode : Type 0 where
  pub address : ℕ
  pub root : Tree ℕ
  pub timeout : ℕ

-- `struct coroutine`, less its links and its stack; `task` is `func` with `args`.
pub record Coroutine (F : Type 0) : Type 0 where
  pub timeout : ℕ
  pub active_by_timeout : Bool
  pub task : F

-- `current`: NULL or the address of `main_coro`, or a coroutine
pub data Current : Type 0 where
  no_coro : Current
  running : ℕ → Current

-- `struct coro_schedule`. A coroutine is never freed, and its address stands for its `coro_id` and
-- the other way around, so that the lists hold the ids and `coroutines` says what is at each. The
-- policy is always `event_cycle`.
pub record Schedule (F : Type 0) : Type 0 where
  pub max_coro_size : ℕ
  pub curr_coro_size : ℕ
  pub next_coro_id : ℕ
  pub stack_bytes : ℕ
  pub current : Current
  pub idle : List ℕ
  pub active : List ℕ
  pub inactive : Tree TimerNode
  pub cache : Memcache
  pub coroutines : ℕ → Coroutine F

-- The bits of `int timespan = a - b` for numbers of 64 bits, and whether that is negative.
unfoldable pub narrow : ℕ → ℕ → ℕ
narrow a b = (a + (18446744073709551616 - b)) % 4294967296

unfoldable pub is_negative : ℕ → Bool
is_negative bits = leb 2147483648 bits

module _ {F : Type 0} where
  -- a write through the address of a coroutine
  unfoldable pub write : (ℕ → Coroutine F) → ℕ → Coroutine F → ℕ → Coroutine F
  write coroutines id c k = if k == id then c else coroutines k
