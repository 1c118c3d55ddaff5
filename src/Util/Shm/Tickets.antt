-- ===== src/Util/Shm/Tickets.antt =====
-- What holds of the tickets of src/util/spinlock.h and of the threads that have them, and what a change
-- of one thread has to keep of it.
use cserv.Prelude.{
  ℕ, ◌+◌, ◌-◌, ◌%◌, ◌<◌, ◌≤◌, ◌≡◌, ◌≢◌, sym, ap, ◌∙◌, arith, Option, none, some, less, equal,
  greater, compared,
}
use cserv.Util.Shm.Spinlock.{
  Spinlock, increment, Thread, outside, waiting, trying, inside, System, try_ticket, set_thread,
}

-- how many tickets come before this one
abbrev pub distance : Spinlock → ℕ → ℕ
distance lock t = (t + (4294967296 - lock.start)) % 4294967296

-- how many tickets lie between a ticket and a later one
abbrev pub since : ℕ → ℕ → ℕ
since v t = (t + (4294967296 - v)) % 4294967296

-- the ticket that a thread has
abbrev pub ticket_of : Thread → Option ℕ
ticket_of outside = none
ticket_of (waiting t) = some t
ticket_of (trying t) = none
ticket_of (inside t) = some t

pub record Orderly (sys : System) : Type 0 where
  pub start_fits : sys.lock.start < 4294967296
  pub ticket_fits : sys.lock.ticket < 4294967296
  pub held :
      (i t : ℕ)
      → ticket_of (sys.threads i) ≡ some t
      → (t < 4294967296) × (distance sys.lock t < distance sys.lock sys.lock.ticket)
  pub served : (i t : ℕ) → sys.threads i ≡ inside t → t ≡ sys.lock.start
  pub tried :
      (i v : ℕ)
      → sys.threads i ≡ trying v
      → (v < 4294967296) × (since v sys.lock.start ≤ since v sys.lock.ticket)
  pub apart :
      (i j t : ℕ) → ticket_of (sys.threads i) ≡ some t → ticket_of (sys.threads j) ≡ some t → i ≡ j

-- what `set_thread` leaves at an index
data Threads (ts : ℕ → Thread) (i : ℕ) (t : Thread) (k : ℕ) : Type 0 where
  here : k ≡ i → set_thread ts i t k ≡ t → Threads ts i t k
  there : k ≢ i → set_thread ts i t k ≡ ts k → Threads ts i t k

set_thread-Threads : (ts : ℕ → Thread) (i : ℕ) (t : Thread) (k : ℕ) → Threads ts i t k
unfolding set_thread
set_thread-Threads ts i t k = elim (compared k i) [
  | less h ↦ there (λ e. omega (arith, h, e)) (ground (arith, h))
  | greater h ↦ there (λ e. omega (arith, h, e)) (ground (arith, h))
  | equal h ↦ here h (ground (arith, h))
]

-- arithmetic of the tickets
pub distance-taken :
    (lock : Spinlock) (t : ℕ)
    → lock.start < 4294967296
    → lock.ticket < 4294967296
    → increment lock.ticket ≢ lock.start
    → t < 4294967296
    → distance lock t ≤ distance lock lock.ticket
    → distance lock t < distance lock (increment lock.ticket)
unfolding increment
distance-taken lock t a b c d e = ground (arith, a, b, c, d, e)

pub distance-served :
    (start ticket t : ℕ)
    → start < 4294967296
    → ticket < 4294967296
    → t < 4294967296
    → t ≢ start
    → (t + (4294967296 - start)) % 4294967296 < (ticket + (4294967296 - start)) % 4294967296
    → (t + (4294967296 - increment start)) % 4294967296
      < (ticket + (4294967296 - increment start)) % 4294967296
unfolding increment
distance-served start ticket t a b c d e = ground (arith, a, b, c, d, e)

pub distance-least :
    (lock : Spinlock) (t : ℕ)
    → lock.start < 4294967296
    → lock.ticket ≡ lock.start
    → distance lock t < distance lock lock.ticket
    → ⊥
distance-least lock t a e h = ground (arith, a, e, h)

pub distance-first :
    (lock : Spinlock)
    → lock.start < 4294967296
    → lock.ticket ≡ lock.start
    → distance lock lock.ticket < distance lock (increment lock.ticket)
unfolding increment
distance-first lock a e = ground (arith, a, e)

-- arithmetic of a ticket that is being tried
pub since-taken :
    (v start ticket : ℕ)
    → ticket < 4294967296
    → v < 4294967296
    → increment ticket ≢ v
    → since v start ≤ since v ticket
    → since v start ≤ since v (increment ticket)
unfolding increment
since-taken v start ticket a b c d = ground (arith, a, b, c, d)

pub since-served :
    (v start ticket : ℕ)
    → start < 4294967296
    → ticket < 4294967296
    → v < 4294967296
    → ticket ≢ start
    → since v start ≤ since v ticket
    → since v (increment start) ≤ since v ticket
unfolding increment
since-served v start ticket a b c d e = ground (arith, a, b, c, d, e)

pub since-won :
    (v start ticket : ℕ)
    → start < 4294967296
    → v < 4294967296
    → ticket ≡ v
    → since v start ≤ since v ticket
    → start ≡ v
since-won v start ticket a b c d = ground (arith, a, b, c, d)

pub since_self : (v t : ℕ) → v < 4294967296 → since v v ≤ since v t
since_self v t h = ground (arith, h)

pub try_ticket-some :
    (lock after : Spinlock) (v : ℕ)
    → try_ticket lock v ≡ some after
    → (lock.ticket ≡ v) × (after ≡ record lock { ticket = increment lock.ticket })
unfolding try_ticket increment
try_ticket-some lock after v h = ground (arith, h)

-- A step of one thread: what it has, and what the others have, is in order with the new lock.
pub update-Orderly :
    (sys : System) (lock : Spinlock) (i : ℕ) (new : Thread)
    → Orderly sys
    → (lock.start < 4294967296) × (lock.ticket < 4294967296)
    → ((k t : ℕ)
        → k ≢ i
        → ticket_of (sys.threads k) ≡ some t
        → distance lock t < distance lock lock.ticket)
    → ((t : ℕ)
        → ticket_of new ≡ some t
        → (t < 4294967296) × (distance lock t < distance lock lock.ticket))
    → ((k t : ℕ) → k ≢ i → sys.threads k ≡ inside t → t ≡ lock.start)
    → ((t : ℕ) → new ≡ inside t → t ≡ lock.start)
    → ((k v : ℕ) → k ≢ i → sys.threads k ≡ trying v → since v lock.start ≤ since v lock.ticket)
    → ((v : ℕ) → new ≡ trying v → (v < 4294967296) × (since v lock.start ≤ since v lock.ticket))
    → ((k t : ℕ) → k ≢ i → ticket_of new ≡ some t → ticket_of (sys.threads k) ≢ some t)
    → Orderly (record { lock = lock; threads = set_thread sys.threads i new })
update-Orderly sys lock i new o fits keep mine keep_served mine_served keep_tried mine_tried fresh =
    record {
      start_fits = fits.0;
      ticket_fits = fits.1;
      held = (λ k t e. elim (set_thread-Threads sys.threads i new k) [
        | here h q ↦ mine t (ap ticket_of (sym q) ∙ e)
        | there h q ↦ let e' = ap ticket_of (sym q) ∙ e in ((o.held k t e').0, keep k t h e')
      ]);
      served = (λ k t e. elim (set_thread-Threads sys.threads i new k) [
        | here h q ↦ mine_served t (sym q ∙ e)
        | there h q ↦ keep_served k t h (sym q ∙ e)
      ]);
      tried = (λ k v e. elim (set_thread-Threads sys.threads i new k) [
        | here h q ↦ mine_tried v (sym q ∙ e)
        | there h q ↦ let e' = sym q ∙ e in ((o.tried k v e').0, keep_tried k v h e')
      ]);
      apart = (λ j k t e e'. elim (set_thread-Threads sys.threads i new j) [
        | here h q ↦ elim (set_thread-Threads sys.threads i new k) [
          | here g r ↦ h ∙ sym g
          | there g r ↦ absurd (fresh k t g (ap ticket_of (sym q) ∙ e) (ap ticket_of (sym r) ∙ e'))
        ]
        | there h q ↦ elim (set_thread-Threads sys.threads i new k) [
          | here g r ↦ absurd (fresh j t h (ap ticket_of (sym r) ∙ e') (ap ticket_of (sym q) ∙ e))
          | there g r ↦ o.apart j k t (ap ticket_of (sym q) ∙ e) (ap ticket_of (sym r) ∙ e')
        ]
      ]);
    }

pub trying_injective : (u v : ℕ) → trying u ≡ trying v → u ≡ v
trying_injective u v e = cc

pub increment-lt : (n : ℕ) → increment n < 4294967296
unfolding increment
increment-lt n = omega arith
