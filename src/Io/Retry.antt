-- ===== src/Io/Retry.antt =====
-- The loops of src/syscall_hook.c, from the first system call to the answer.
use cserv.Prelude.{
  ℕ, ◌<◌, ◌≡◌, refl, ap, ◌∙◌, arith, Bool, true, false, Option, none, some, List, [], ◌∷◌, ◌++◌,
  Every,
}
use cserv.Io.Event.{
  EventType, Proc, EventLoop, add_fd_event, del_fd_event, writable, event_conn_callback,
}
use cserv.Io.Hook.{
  Access, sleep, Attempt, done, interrupted, not_ready, broken, Outcome, returned, failed,
  not_added, timed_out, retry, Connecting, at_once, in_progress, not_possible, connect,
}
use cserv.Io.Laws.{
  Lacks, SameMasks, add_fd_event-added, add_fd_event-refused, add_fd_event-refused_masks,
}
use cserv.Io.Others.{
  AwayFrom, sleep-SameMasks, sleep-size, sleep-away, sleep-append, woken-SameMasks,
}

-- what an attempt ends the call with, and `none` when the call is tried again: after EINTR, and after a
-- wait that did not end by its timeout
abbrev pub verdict : Attempt → Option Outcome
verdict (done n) = some (returned n)
verdict interrupted = none
verdict (not_ready false others by_timeout) = some not_added
verdict (not_ready true others true) = some timed_out
verdict (not_ready true others false) = none
verdict broken = some failed

-- what the other coroutines do to the table in the sleep of an attempt, and in those of many
abbrev pub slept : Attempt → List Access
slept (not_ready true others by_timeout) = others
slept _ = []

abbrev pub all_slept : List Attempt → List Access
all_slept [] = []
all_slept (a ∷ attempts) = slept a ++ all_slept attempts

-- The attempts up to the first that ends the call, and its outcome: behind it the masks are those that
-- the other coroutines have left. Or no attempt ends it.
pub data Retried (evloop : EventLoop) (attempts : List Attempt)
    : Option (Outcome × EventLoop) → Type 0 where
  unanswered : Every (λ a. verdict a ≡ none) attempts → Retried evloop attempts none
  answered :
      (first : List Attempt) (final : Attempt) (rest : List Attempt) (outcome : Outcome)
      → (after : EventLoop) → attempts ≡ first ++ final ∷ rest
      → Every (λ a. verdict a ≡ none) first
      → verdict final ≡ some outcome
      → SameMasks (sleep (all_slept (first ++ final ∷ [])) evloop) after
      → Retried evloop attempts (some (outcome, after))

SameMasks-refl : (x : EventLoop) → SameMasks x x
SameMasks-refl x = record { size = refl; masks = (λ k. refl) }

SameMasks-trans : (x y z : EventLoop) → SameMasks x y → SameMasks y z → SameMasks x z
SameMasks-trans x y z s t = record { size = t.size ∙ s.size; masks = (λ k. t.masks k ∙ s.masks k) }

-- one more attempt before, which did not end the call
Retried-cons :
    (a : Attempt) (before between : EventLoop) (attempts : List Attempt)
    → (r : Option (Outcome × EventLoop)) → verdict a ≡ none
    → SameMasks (sleep (slept a) before) between
    → Retried between attempts r
    → Retried before (a ∷ attempts) r
Retried-cons a before between attempts _ v s (unanswered all) = unanswered (v, all)
Retried-cons a before between attempts _ v s (answered first final rest outcome after e all w t) =
    let others : List Access = all_slept (first ++ final ∷ []) in
    answered (a ∷ first) final rest outcome after (ap (◌∷◌ a) e) (v, all) w
      (SameMasks-trans (sleep (slept a ++ others) before) (sleep others between) after
        (rw (sleep-append (slept a) others before)
          (sleep-SameMasks others (sleep (slept a) before) between s))
        t)

-- an attempt that ends the call
Retried-last :
    (a : Attempt) (attempts : List Attempt) (evloop after : EventLoop) (outcome : Outcome)
    → verdict a ≡ some outcome
    → SameMasks (sleep (slept a) evloop) after
    → Retried evloop (a ∷ attempts) (some (outcome, after))
unfolding sleep
Retried-last a attempts evloop after outcome v s =
    answered [] a attempts outcome after refl tt v (rw (sleep-append (slept a) [] evloop) s)

abbrev pub AllAwayFrom : ℕ → List Attempt → Type 0
AllAwayFrom fd attempts = Every (λ a. AwayFrom fd (slept a)) attempts

-- The hooks for `read`, `recv`, `write`, `send` and `accept` share this loop. For a descriptor of the
-- table whose event nobody waits for, and which no other coroutine adds or deletes during the
-- sleeps, it returns the outcome of the first attempt that ends the call, and asks for more attempts
-- when none does. The masks of all descriptors are then those that the other coroutines would have
-- left by themselves: every event that the loop has added is taken back.
pub retry-Retried :
    (fd : ℕ) (what : EventType) (proc : Proc) (self : ℕ) (attempts : List Attempt)
    → (evloop : EventLoop) → fd < evloop.max_conn
    → Lacks what (evloop.array fd).mask
    → AllAwayFrom fd attempts
    → Retried evloop attempts (retry fd what proc self attempts evloop)
unfolding retry sleep
retry-Retried fd what proc self [] evloop r l away = unanswered tt
retry-Retried fd what proc self (done n ∷ attempts) evloop r l away =
    Retried-last (done n) attempts evloop evloop (returned n) refl (SameMasks-refl evloop)
retry-Retried fd what proc self (interrupted ∷ attempts) evloop r l away =
    Retried-cons interrupted evloop evloop attempts _ refl (SameMasks-refl evloop)
      (retry-Retried fd what proc self attempts evloop r l away.1)
retry-Retried fd what proc self (broken ∷ attempts) evloop r l away =
    Retried-last broken attempts evloop evloop failed refl (SameMasks-refl evloop)
retry-Retried fd what proc self (not_ready false others by_timeout ∷ attempts) evloop r l away =
    rw (retry, add_fd_event-refused fd what proc self evloop r)
      (Retried-last (not_ready false others by_timeout) attempts evloop _ not_added refl
        (add_fd_event-refused_masks fd what proc self evloop))
retry-Retried fd what proc self (not_ready true others true ∷ attempts) evloop r l away =
    rw (retry, add_fd_event-added fd what proc self evloop r)
      (Retried-last (not_ready true others true) attempts evloop _ timed_out refl
        (woken-SameMasks fd what proc self others evloop r l away.0))
retry-Retried fd what proc self (not_ready true others false ∷ attempts) evloop r l away =
    let woken =
      del_fd_event fd what (sleep others (add_fd_event true fd what proc self evloop).1) in
    let s = woken-SameMasks fd what proc self others evloop r l away.0 in
    let same : (woken.array fd).mask ≡ (evloop.array fd).mask =
      s.masks fd ∙ sleep-away fd others evloop away.0 in
    rw (retry, add_fd_event-added fd what proc self evloop r)
      (Retried-cons (not_ready true others false) evloop woken attempts _ refl s (
        retry-Retried fd what proc self attempts woken
          (omega (arith, r, s.size, sleep-size others evloop)) (rw same l) away.1))

-- what the other coroutines do to the table in the sleep of `connect`, if there is one
abbrev pub slept_connecting : Connecting → Bool → List Access → List Access
slept_connecting in_progress true others = others
slept_connecting _ _ others = []

-- `connect` takes its event back too: on every branch the masks of all descriptors are those that the
-- other coroutines would have left by themselves, for a descriptor of the table that nobody waits
-- to write to, and which no other coroutine adds or deletes during the sleep.
pub connect-SameMasks :
    (fd self : ℕ) (c : Connecting) (ok : Bool) (others : List Access)
    (by_timeout established : Bool)
    → (evloop : EventLoop) → fd < evloop.max_conn
    → Lacks writable (evloop.array fd).mask
    → AwayFrom fd others
    → SameMasks
        (sleep (slept_connecting c ok others) evloop)
        (connect fd self c ok others by_timeout established evloop).1
unfolding connect sleep
connect-SameMasks fd self at_once ok others by_timeout established evloop r l away =
    SameMasks-refl evloop
connect-SameMasks fd self not_possible ok others by_timeout established evloop r l away =
    SameMasks-refl evloop
connect-SameMasks fd self in_progress false others by_timeout established evloop r l away =
    rw (connect, add_fd_event-refused fd writable event_conn_callback self evloop r)
      (add_fd_event-refused_masks fd writable event_conn_callback self evloop)
connect-SameMasks fd self in_progress true others true established evloop r l away =
    rw (connect, add_fd_event-added fd writable event_conn_callback self evloop r)
      (woken-SameMasks fd writable event_conn_callback self others evloop r l away)
connect-SameMasks fd self in_progress true others false true evloop r l away =
    rw (connect, add_fd_event-added fd writable event_conn_callback self evloop r)
      (woken-SameMasks fd writable event_conn_callback self others evloop r l away)
connect-SameMasks fd self in_progress true others false false evloop r l away =
    rw (connect, add_fd_event-added fd writable event_conn_callback self evloop r)
      (woken-SameMasks fd writable event_conn_callback self others evloop r l away)
