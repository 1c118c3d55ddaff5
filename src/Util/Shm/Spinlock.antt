-- ===== src/Util/Shm/Spinlock.antt =====
-- The ticket lock of src/util/spinlock.h, and threads that use it. The numbers are `unsigned int`.
use cserv.Prelude.{ℕ, ◌+◌, ◌%◌, ◌≡◌, ◌≢◌, Option, none, some, ◌==◌, if◌then◌else◌}

pub record Spinlock : Type 0 where
  pub start : ℕ
  pub ticket : ℕ

unfoldable pub increment : ℕ → ℕ
increment n = (n + 1) % 4294967296

-- `spin_lock_init`
abbrev pub spin_lock_init : Spinlock
spin_lock_init = record { start = 0; ticket = 0 }

-- `atomic_fetch_add_explicit(&lock->ticket, 1)`: the ticket that was taken, and the lock
unfoldable pub take_ticket : Spinlock → ℕ × Spinlock
unfolding increment
take_ticket lock = (lock.ticket, record lock { ticket = increment lock.ticket })

-- `lock->start++` of `spin_unlock`
unfoldable pub spin_unlock : Spinlock → Spinlock
unfolding increment
spin_unlock lock = record lock { start = increment lock.start }

-- a thread, as far as it uses the lock: outside, in the loop of `spin_lock` with its ticket, between
-- the two accesses of `spin_trylock` with what it has read, or behind the lock
pub data Thread : Type 0 where
  outside : Thread
  waiting : ℕ → Thread
  trying : ℕ → Thread
  inside : ℕ → Thread

pub record System : Type 0 where
  pub lock : Spinlock
  pub threads : ℕ → Thread

unfoldable pub set_thread : (ℕ → Thread) → ℕ → Thread → ℕ → Thread
set_thread threads i t k = if k == i then t else threads k

-- the first access of `spin_trylock`: the ticket that it then tries to take
unfoldable pub see_ticket : Spinlock → ℕ
see_ticket lock = lock.start

-- its second access, `atomic_compare_exchange_strong_explicit`, with that ticket
unfoldable pub try_ticket : Spinlock → ℕ → Option Spinlock
unfolding increment
try_ticket lock ticket =
    if lock.ticket == ticket
    then some (record lock { ticket = (ticket + 1) % 4294967296 })
    else none

-- When a ticket is taken, the next one is not one that a thread between the two accesses of its
-- `spin_trylock` has read: the tickets do not go all the way round in between.
abbrev pub NotRead : (ℕ → Thread) → ℕ → Type 0
NotRead threads ticket = (k : ℕ) → threads k ≢ trying ticket

-- The steps of the threads, in any order. There are fewer threads than tickets, so that the tickets
-- never catch up with the one that is served, nor with one that is being tried.
pub data Step (sys : System) : System → Type 0 where
  takes :
      (i : ℕ)
      → sys.threads i ≡ outside
      → increment sys.lock.ticket ≢ sys.lock.start
      → NotRead sys.threads (increment sys.lock.ticket)
      → Step sys (record {
        lock = (take_ticket sys.lock).1;
        threads = set_thread sys.threads i (waiting (take_ticket sys.lock).0);
      })
  enters :
      (i ticket : ℕ)
      → sys.threads i ≡ waiting ticket
      → sys.lock.start ≡ ticket
      → Step sys (record sys { threads = set_thread sys.threads i (inside ticket) })
  reads :
      (i : ℕ)
      → sys.threads i ≡ outside
      → Step sys (record sys { threads = set_thread sys.threads i (trying (see_ticket sys.lock)) })
  wins :
      (i ticket : ℕ) (lock : Spinlock)
      → sys.threads i ≡ trying ticket
      → try_ticket sys.lock ticket ≡ some lock
      → NotRead sys.threads (increment sys.lock.ticket)
      → Step sys (record { lock = lock; threads = set_thread sys.threads i (inside ticket) })
  loses :
      (i ticket : ℕ)
      → sys.threads i ≡ trying ticket
      → try_ticket sys.lock ticket ≡ none
      → Step sys (record sys { threads = set_thread sys.threads i outside })
  leaves :
      (i ticket : ℕ)
      → sys.threads i ≡ inside ticket
      → Step sys
          (record { lock = spin_unlock sys.lock; threads = set_thread sys.threads i outside })

-- no thread uses the lock yet
abbrev pub idle_system : System
idle_system = record { lock = spin_lock_init; threads = (λ i. outside) }

pub data Reachable : System → Type 0 where
  starts : Reachable idle_system
  steps : (sys after : System) → Reachable sys → Step sys after → Reachable after
