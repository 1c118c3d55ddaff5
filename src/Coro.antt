-- ===== src/Coro.antt =====
-- src/coro: the coroutines and their scheduler.
pub mod Search
pub mod State
pub mod Timers
pub mod Sched
pub mod SearchLaws
pub mod Ordered
pub mod TimerNodes
pub mod TimerTree
pub mod Places
pub mod Sleeping
pub mod Handler
pub mod Expiry
pub mod Check
pub mod Invariant
pub mod Moves
pub mod Wakes
pub mod Reachable
pub mod Lost
