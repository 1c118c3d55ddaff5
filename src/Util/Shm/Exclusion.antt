-- ===== src/Util/Shm/Exclusion.antt =====
-- The ticket lock of src/util/spinlock.h lets one thread in at a time.
use mathlib.Core.Option.{some-injective}
use cserv.Prelude.{ℕ, ◌≡◌, ◌≢◌, refl, sym, ap, ◌∙◌, arith, some}
use cserv.Util.Shm.Spinlock.{
  Spinlock, increment, NotRead, take_ticket, spin_unlock, outside, waiting, trying, inside, System,
  see_ticket, try_ticket, set_thread, Step, takes, enters, reads, wins, loses, leaves, idle_system,
  Reachable, starts, steps,
}
use cserv.Util.Shm.Tickets.{
  distance, ticket_of, Orderly, distance-taken, distance-served, distance-least, distance-first,
  since-taken, since-served, since-won, since_self, try_ticket-some, update-Orderly,
  trying_injective, increment-lt,
}

-- a ticket is taken by `spin_lock`
takes-Orderly :
    (sys : System) (i : ℕ)
    → increment sys.lock.ticket ≢ sys.lock.start
    → NotRead sys.threads (increment sys.lock.ticket)
    → Orderly sys
    → Orderly (record {
      lock = (take_ticket sys.lock).1;
      threads = set_thread sys.threads i (waiting (take_ticket sys.lock).0);
    })
unfolding take_ticket
takes-Orderly sys i room unread o =
    update-Orderly sys (record sys.lock { ticket = increment sys.lock.ticket }) i
      (waiting sys.lock.ticket) o (o.start_fits, increment-lt sys.lock.ticket)
      (λ k t h e.
        distance-taken sys.lock t o.start_fits o.ticket_fits room (o.held k t e).0
          (omega (arith, (o.held k t e).1)))
      (λ t e.
        let same : sys.lock.ticket ≡ t = some-injective _ _ e in
        (
          rw (sym same) o.ticket_fits,
          rw (sym same) (
              distance-taken sys.lock sys.lock.ticket o.start_fits o.ticket_fits room o.ticket_fits
                (omega arith)),
        ))
      (λ k t h e. o.served k t e) (λ t e. absurd (ground (arith, e)))
      (λ k v h e.
        since-taken v sys.lock.start sys.lock.ticket o.ticket_fits (o.tried k v e).0
          (λ z. unread k (e ∙ ap trying (sym z))) (o.tried k v e).1)
      (λ v e. absurd (ground (arith, e)))
      (λ k t h e g.
        let same : sys.lock.ticket ≡ t = some-injective _ _ e in
        omega (arith, (o.held k t g).1, ap (distance sys.lock) same))

-- the second access of `spin_trylock` takes the ticket that the first has read: it is served
wins-Orderly :
    (sys : System) (i ticket : ℕ) (lock : Spinlock)
    → sys.threads i ≡ trying ticket
    → try_ticket sys.lock ticket ≡ some lock
    → NotRead sys.threads (increment sys.lock.ticket)
    → Orderly sys
    → Orderly (record { lock = lock; threads = set_thread sys.threads i (inside ticket) })
wins-Orderly sys i ticket lock w won unread o =
    let (n, after) = try_ticket-some sys.lock lock ticket won in
    let (v_fits, between) = o.tried i ticket w in
    let s : sys.lock.start ≡ ticket =
      since-won ticket sys.lock.start sys.lock.ticket o.start_fits v_fits n between in
    let nobody : (k t : ℕ) → ticket_of (sys.threads k) ≢ some t =
      λ k t g. distance-least sys.lock t o.start_fits (n ∙ sym s) (o.held k t g).1 in
    rw after (
      update-Orderly sys (record sys.lock { ticket = increment sys.lock.ticket }) i (inside ticket)
        o (o.start_fits, increment-lt sys.lock.ticket) (λ k t h e. absurd (nobody k t e))
        (λ t e.
          let same : sys.lock.ticket ≡ t = n ∙ some-injective _ _ e in
          (
            rw (sym same) o.ticket_fits,
            rw (sym same) (distance-first sys.lock o.start_fits (n ∙ sym s)),
          ))
        (λ k t h e. o.served k t e) (λ t e. sym (some-injective _ _ (ap ticket_of e)) ∙ sym s)
        (λ k v h e.
          since-taken v sys.lock.start sys.lock.ticket o.ticket_fits (o.tried k v e).0
            (λ z. unread k (e ∙ ap trying (sym z))) (o.tried k v e).1)
        (λ v e. absurd (ground (arith, e))) (λ k t h e g. nobody k t g))

-- the next ticket is served
leaves-Orderly :
    (sys : System) (i ticket : ℕ)
    → sys.threads i ≡ inside ticket
    → Orderly sys
    → Orderly (record { lock = spin_unlock sys.lock; threads = set_thread sys.threads i outside })
unfolding spin_unlock
leaves-Orderly sys i ticket w o =
    let at : ticket ≡ sys.lock.start = o.served i ticket w in
    let gone : (k t : ℕ) → k ≢ i → ticket_of (sys.threads k) ≡ some t → t ≢ sys.lock.start =
      λ k t h e z. h (o.apart k i t e (ap ticket_of w ∙ ap some (at ∙ sym z))) in
    update-Orderly sys (record sys.lock { start = increment sys.lock.start }) i outside o
      (increment-lt sys.lock.start, o.ticket_fits)
      (λ k t h e.
        distance-served sys.lock.start sys.lock.ticket t o.start_fits o.ticket_fits (o.held k t e).0
          (gone k t h e) (o.held k t e).1)
      (λ t e. absurd (ground (arith, e)))
      (λ k t h e. absurd (gone k t h (ap ticket_of e) (o.served k t e)))
      (λ t e. absurd (ground (arith, e)))
      (λ k v h e.
        since-served v sys.lock.start sys.lock.ticket o.start_fits o.ticket_fits (o.tried k v e).0
          (λ z. distance-least sys.lock ticket o.start_fits z (o.held i ticket (ap ticket_of w)).1)
          (o.tried k v e).1)
      (λ v e. absurd (ground (arith, e))) (λ k t h e g. ground (arith, e))

Step-Orderly : (sys after : System) → Step sys after → Orderly sys → Orderly after
Step-Orderly sys _ (takes i out room unread) o = takes-Orderly sys i room unread o
Step-Orderly sys _ (enters i ticket w s) o =
    update-Orderly sys sys.lock i (inside ticket) o (o.start_fits, o.ticket_fits)
      (λ k t h e. (o.held k t e).1) (λ t e. o.held i t (ap ticket_of w ∙ e))
      (λ k t h e. o.served k t e) (λ t e. sym (some-injective _ _ (ap ticket_of e)) ∙ sym s)
      (λ k v h e. (o.tried k v e).1) (λ v e. absurd (ground (arith, e)))
      (λ k t h e g. h (o.apart k i t g (ap ticket_of w ∙ e)))
Step-Orderly sys _ (reads i out) o =
    let seen : see_ticket sys.lock ≡ sys.lock.start = unfold see_ticket in refl in
    update-Orderly sys sys.lock i (trying (see_ticket sys.lock)) o (o.start_fits, o.ticket_fits)
      (λ k t h e. (o.held k t e).1) (λ t e. absurd (ground (arith, e))) (λ k t h e. o.served k t e)
      (λ t e. absurd (ground (arith, e))) (λ k v h e. (o.tried k v e).1)
      (λ v e.
        let same : v ≡ sys.lock.start = sym (trying_injective (see_ticket sys.lock) v e) ∙ seen in
        rw same (o.start_fits, since_self sys.lock.start sys.lock.ticket o.start_fits))
      (λ k t h e g. absurd (ground (arith, e)))
Step-Orderly sys _ (wins i ticket lock w won unread) o =
    wins-Orderly sys i ticket lock w won unread o
Step-Orderly sys _ (loses i ticket w n) o =
    update-Orderly sys sys.lock i outside o (o.start_fits, o.ticket_fits)
      (λ k t h e. (o.held k t e).1) (λ t e. absurd (ground (arith, e))) (λ k t h e. o.served k t e)
      (λ t e. absurd (ground (arith, e))) (λ k v h e. (o.tried k v e).1)
      (λ v e. absurd (ground (arith, e))) (λ k t h e g. absurd (ground (arith, e)))
Step-Orderly sys _ (leaves i ticket w) o = leaves-Orderly sys i ticket w o

idle-Orderly : Orderly idle_system
idle-Orderly = record {
  start_fits = omega arith;
  ticket_fits = omega arith;
  held = (λ i t e. absurd (ground (arith, e)));
  served = (λ i t e. absurd (ground (arith, e)));
  tried = (λ i v e. absurd (ground (arith, e)));
  apart = (λ i j t e g. absurd (ground (arith, e)));
}

Reachable-Orderly : (sys : System) → Reachable sys → Orderly sys
Reachable-Orderly _ starts = idle-Orderly
Reachable-Orderly _ (steps sys after r s) = Step-Orderly sys after s (Reachable-Orderly sys r)

-- While a thread is behind the lock no other one is, in every state that threads reach by
-- `spin_lock`, `spin_trylock` and `spin_unlock`, in any order, with tickets that wrap around, under the
-- conditions of the steps: a ticket is taken only while the next one is neither the one that is
-- served, nor one that a thread has read and not yet tried to take.
pub Reachable-exclusive :
    (sys : System) (i j s t : ℕ)
    → Reachable sys
    → i ≢ j
    → sys.threads i ≡ inside s
    → sys.threads j ≢ inside t
Reachable-exclusive sys i j s t r d e g =
    let o = Reachable-Orderly sys r in
    d (
      o.apart i j s (ap ticket_of e)
        (ap ticket_of g ∙ ap some (o.served j t g ∙ sym (o.served i s e))))
