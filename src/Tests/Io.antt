-- ===== src/Tests/Io.antt =====
-- Runs of the hooks of system calls.
use cserv.Prelude.{◌≡◌, refl, arith, true, false, some, List, [], ◌∷◌}
use cserv.Io.Event.{readable, writable, evnet_none, event_rw_callback, EventLoop, event_loop_init}
use cserv.Io.Hook.{
  Access, adds, sleep, Attempt, done, interrupted, not_ready, retry, in_progress, connect,
}
use cserv.Io.Laws.{SameMasks}
use cserv.Io.Retry.{slept_connecting, Retried, retry-Retried, connect-SameMasks}

abbrev evloop : EventLoop
evloop = record {
  max_conn = 130;
  array = (λ fd. record { mask = evnet_none; proc = event_rw_callback; args = 0 });
  calls = [];
}

evloop_init : event_loop_init true true true 2 ≡ some evloop
unfolding event_loop_init
evloop_init = refl

-- during the sleep another coroutine waits to write to descriptor 6
abbrev others : List Access
others = adds true 6 writable event_rw_callback 2 ∷ []

-- interrupted, then not ready, then 7 bytes
abbrev attempts : List Attempt
attempts = interrupted ∷ not_ready true others false ∷ done 7 ∷ []

retry-Retried_example :
    Retried evloop attempts (retry 5 readable event_rw_callback 1 attempts evloop)
retry-Retried_example =
    retry-Retried 5 readable event_rw_callback 1 attempts evloop (omega arith) refl
      (tt, ((λ e. ground (arith, e), tt), (tt, tt)))

connect-SameMasks_example :
    SameMasks
      (sleep (slept_connecting in_progress true others) evloop)
      (connect 5 1 in_progress true others true true evloop).1
connect-SameMasks_example =
    connect-SameMasks 5 1 in_progress true others true true evloop (omega arith) refl
      (λ e. ground (arith, e), tt)
