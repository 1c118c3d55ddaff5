-- ===== src/Io/Others.antt =====
-- What the other coroutines do to the table of src/event.c while one sleeps in a hook of
-- src/syscall_hook.c.
use cserv.Prelude.{
  ℕ, ◌<◌, ◌≡◌, ◌≢◌, refl, sym, ◌∙◌, arith, true, List, [], ◌∷◌, ◌++◌, Every, compared, less, equal,
  greater,
}
use cserv.Io.Event.{EventType, merge, Proc, EventLoop, add_fd_event, del_fd_event}
use cserv.Io.Hook.{Access, adds, deletes, access, sleep}
use cserv.Io.Laws.{
  Lacks, SameMasks, add_fd_event-mask, del_fd_event-mask, add_fd_event-size, del_fd_event-size,
  add_fd_event-far, del_fd_event-far, add_fd_event-near, del_fd_event-near,
}

-- the descriptor of an access
abbrev pub place : Access → ℕ
place (adds ok fd what proc args) = fd
place (deletes fd what) = fd

-- none of the accesses is one to this descriptor
abbrev pub AwayFrom : ℕ → List Access → Type 0
AwayFrom fd others = Every (λ a. place a ≢ fd) others

-- two tables of one size agree on the masks of some of the descriptors
record Agree (P : ℕ → Type 0) (x y : EventLoop) : Type 0 where
  size : y.max_conn ≡ x.max_conn
  masks : (k : ℕ) → P k → (y.array k).mask ≡ (x.array k).mask

access-size : (a : Access) (x : EventLoop) → (access a x).max_conn ≡ x.max_conn
unfolding access
access-size (adds ok fd what proc args) x = add_fd_event-size ok fd what proc args x
access-size (deletes fd what) x = del_fd_event-size fd what x

access-far :
    (a : Access) (x : EventLoop) (k : ℕ)
    → k ≢ place a
    → ((access a x).array k).mask ≡ (x.array k).mask
unfolding access
access-far (adds ok fd what proc args) x k h = add_fd_event-far ok fd what proc args x k h
access-far (deletes fd what) x k h = del_fd_event-far fd what x k h

access-near :
    (a : Access) (x y : EventLoop)
    → y.max_conn ≡ x.max_conn
    → (y.array (place a)).mask ≡ (x.array (place a)).mask
    → ((access a y).array (place a)).mask ≡ ((access a x).array (place a)).mask
unfolding access
access-near (adds ok fd what proc args) x y s e = add_fd_event-near ok fd what proc args x y s e
access-near (deletes fd what) x y s e = del_fd_event-near fd what x y s e

module _ (P : ℕ → Type 0) where
  -- accesses to descriptors on which the tables agree keep them in agreement
  access-Agree :
      (a : Access) (x y : EventLoop) → P (place a) → Agree P x y → Agree P (access a x) (access a y)
  access-Agree a x y p g = record {
    size = access-size a y ∙ g.size ∙ sym (access-size a x);
    masks = (λ k q.
        let apart : k ≢ place a → ((access a y).array k).mask ≡ ((access a x).array k).mask =
          λ n. access-far a y k n ∙ g.masks k q ∙ sym (access-far a x k n) in
        elim (compared k (place a)) [
          | less h ↦ apart (λ e. omega (arith, h, e))
          | greater h ↦ apart (λ e. omega (arith, h, e))
          | equal h ↦ rw h (access-near a x y g.size (g.masks (place a) p))
        ]);
  }

  sleep-Agree :
      (others : List Access) (x y : EventLoop)
      → Every (λ a. P (place a)) others
      → Agree P x y
      → Agree P (sleep others x) (sleep others y)
  unfolding sleep
  sleep-Agree [] x y all g = g
  sleep-Agree (a ∷ others) x y all g =
      sleep-Agree others (access a x) (access a y) all.1 (access-Agree a x y all.0 g)

every : (others : List Access) → Every (λ a. Unit {0}) others
every [] = tt
every (a ∷ others) = (tt, every others)

-- the others do the same to two tables with the same masks
pub sleep-SameMasks :
    (others : List Access) (x y : EventLoop)
    → SameMasks x y
    → SameMasks (sleep others x) (sleep others y)
sleep-SameMasks others x y s =
    let g =
      sleep-Agree (λ k. Unit {0}) others x y (every others)
        (record { size = s.size; masks = (λ k p. s.masks k) }) in
    record { size = g.size; masks = (λ k. g.masks k tt) }

pub sleep-size : (others : List Access) (x : EventLoop) → (sleep others x).max_conn ≡ x.max_conn
unfolding sleep
sleep-size [] x = refl
sleep-size (a ∷ others) x = sleep-size others (access a x) ∙ access-size a x

pub sleep-away :
    (fd : ℕ) (others : List Access) (x : EventLoop)
    → AwayFrom fd others
    → ((sleep others x).array fd).mask ≡ (x.array fd).mask
unfolding sleep
sleep-away fd [] x away = refl
sleep-away fd (a ∷ others) x away =
    sleep-away fd others (access a x) away.1 ∙ access-far a x fd (λ e. away.0 (sym e))

pub sleep-append :
    (others later : List Access) (x : EventLoop)
    → sleep (others ++ later) x ≡ sleep later (sleep others x)
unfolding sleep
sleep-append [] later x = refl
sleep-append (a ∷ others) later x = sleep-append others later (access a x)

-- An event that was not there is taken back after the sleep: what stays is what the others have done.
pub woken-SameMasks :
    (fd : ℕ) (what : EventType) (proc : Proc) (self : ℕ) (others : List Access) (evloop : EventLoop)
    → fd < evloop.max_conn
    → Lacks what (evloop.array fd).mask
    → AwayFrom fd others
    → SameMasks
        (sleep others evloop)
        (del_fd_event fd what (sleep others (add_fd_event true fd what proc self evloop).1))
woken-SameMasks fd what proc self others evloop r l away =
    let waiting : EventLoop = (add_fd_event true fd what proc self evloop).1 in
    let size = add_fd_event-size true fd what proc self evloop in
    let asleep : EventLoop = sleep others waiting in
    let g =
      sleep-Agree (λ k. k ≢ fd) others evloop waiting away
        (record {
          size = size;
          masks = (λ k n. add_fd_event-far true fd what proc self evloop k n);
        }) in
    let here : (asleep.array fd).mask ≡ merge what (evloop.array fd).mask =
      sleep-away fd others waiting away ∙ add_fd_event-mask fd what proc self evloop r in
    let back =
      del_fd_event-mask fd what asleep (evloop.array fd).mask
        (omega (arith, r, size, sleep-size others waiting)) here l in
    let far : (k : ℕ)
        → k ≢ fd
        → ((del_fd_event fd what asleep).array k).mask ≡ ((sleep others evloop).array k).mask =
      λ k n. del_fd_event-far fd what asleep k n ∙ g.masks k n in
    record {
      size = del_fd_event-size fd what asleep ∙ g.size;
      masks = (λ k. elim (compared k fd) [
        | less h ↦ far k (λ e. omega (arith, h, e))
        | greater h ↦ far k (λ e. omega (arith, h, e))
        | equal h ↦ rw h (back ∙ sym (sleep-away fd others evloop away))
      ]);
    }
