-- ===== src/Log/Slots.antt =====
-- The loggers of src/logger.c that processes take, fill and give back.
use mathlib.Core.List.{append_assoc, append-nil}
use cserv.Prelude.{
  ℕ, zero, suc, ◌+◌, ◌≤◌, ◌<◌, ◌≡◌, ◌≢◌, refl, sym, ap, ◌∙◌, arith, false, Bool-cases, inl, inr,
  Option, none, some, List, [], ◌∷◌, ◌++◌, length, get_or, set, ltb, ◌==◌,
}
use cserv.Util.Cirbuf.Defs.{cirbuf_init}
use cserv.Util.Cirbuf.Laws.{contents, cirbuf_write-append}
use cserv.Log.Defs.{
  LogLevel, rank, LogBuff, blank, Logger, buff_size, log_write, log_elem_count, alloc_from,
  log_worker_alloc, log_worker_flush_and_reset, log_out, init_loggers,
}
use cserv.Log.Flush.{message, IsWhole, log_write-message}
use cserv.Log.Queues.{messages, AllWhole, IsReady}
use cserv.Log.Scan.{AllReady, pids_of}

messages-append : (xs ys : List LogBuff) → messages (xs ++ ys) ≡ messages xs ++ messages ys
messages-append [] ys = refl
messages-append (x ∷ xs) ys =
    ap (λ z. message x ++ z) (messages-append xs ys)
    ∙ sym (append_assoc (message x) (messages xs) (messages ys))

AllWhole-append :
    (xs : List LogBuff) (y : LogBuff) → AllWhole xs → IsWhole y → AllWhole (xs ++ (y ∷ []))
AllWhole-append [] y w h = (h, tt)
AllWhole-append (x ∷ xs) y (a, w) h = (a, AllWhole-append xs y w h)

-- what a call of `log_out` leaves
pub record Logged (log : Logger) (text : List ℕ) (after : Logger) : Type 0 where
  pub ready : IsReady after
  pub appended : messages (contents blank after.queue) ≡ messages (contents blank log.queue) ++ text

-- A message whose level is not above the level of the log, and whose text has at most 1015 bytes, is
-- put behind the others of its process as it is, as long as there is a slot.
pub log_out-Logged :
    (log_level level : LogLevel) (text : List ℕ) (log : Logger)
    → rank level ≤ rank log_level
    → length text < buff_size
    → IsReady log
    → length (contents blank log.queue) + 1 < log.queue.elem_count
    → Logged log text (log_out log_level level text log)
unfolding log_out
log_out-Logged log_level level text log l t r h =
    let quiet : ltb (rank log_level) (rank level) ≡ false = ground (arith, l) in
    let slot : LogBuff = get_or log.queue.elem log.queue.end blank in
    let (q, e, v, c) = cirbuf_write-append blank (log_write text) log.queue r.queue h in
    rw (log_out, quiet, e)
      (record {
        ready = record {
          queue = v;
          whole = rw c (
              AllWhole-append (contents blank log.queue) (log_write text slot) r.whole
                (unfold log_write in t));
        };
        appended =
            ap messages c
            ∙ messages-append (contents blank log.queue) (log_write text slot ∷ [])
            ∙ ap (λ z. messages (contents blank log.queue) ++ z)
                (append-nil (message (log_write text slot)) ∙ log_write-message text slot t);
      })

-- no logger is free
abbrev pub NoneFree : List ℕ → Type 0
NoneFree [] = Unit
NoneFree (pid ∷ pids) = (pid ≢ 0) × NoneFree pids

-- the pages of every logger have room for the queue
abbrev pub AllRoomy : List Logger → Type 0
AllRoomy [] = Unit
AllRoomy (log ∷ logs) = (log_elem_count ≤ length log.queue.elem) × AllRoomy logs

-- what `log_worker_alloc` answers
abbrev pub Allocated : ℕ → List Logger → ℕ → Option (ℕ × List Logger) → Type 0
Allocated pid logs i none = NoneFree (pids_of logs)
Allocated pid logs i (some (id, after)) =
    (k : ℕ) × (id ≡ i + k)
    × (get_or (pids_of logs) k 1 ≡ 0)
    × (pids_of after ≡ set (pids_of logs) k pid)
    × AllReady after

next-Allocated :
    (pid i : ℕ) (log : Logger) (logs : List Logger) (r : Option (ℕ × List Logger))
    → log.pid ≢ 0
    → (log.pid ≢ 0 → IsReady log)
    → Allocated pid logs (i + 1) r
    → Allocated pid
        (log ∷ logs)
        i
        (elim r [ none ↦ none | some (id, logs') ↦ some (id, log ∷ logs') ])
next-Allocated pid i log logs none h v a = (h, a)
next-Allocated pid i log logs (some (id, after)) h v (k, e, g, s, rs) =
    (suc k, omega (arith, e), g, ap (◌∷◌ log.pid) s, (v, rs))

fresh-IsReady :
    (pid : ℕ) (log : Logger)
    → log_elem_count ≤ length log.queue.elem
    → IsReady
        (record { pid = pid; need_init = false; queue = cirbuf_init log.queue log_elem_count })
unfolding cirbuf_init
fresh-IsReady pid log m = record {
  queue = record { start_in = omega arith; end_in = omega arith; room = m };
  whole = tt;
}

alloc_from-Allocated :
    (pid i : ℕ) (logs : List Logger)
    → AllReady logs
    → AllRoomy logs
    → Allocated pid logs i (alloc_from pid i logs)
unfolding alloc_from
alloc_from-Allocated pid i [] r m = tt
alloc_from-Allocated pid i (log ∷ logs) (r, rs) (m, ms) = elim (Bool-cases (log.pid == 0)) [
  | inl e ↦
      rw (alloc_from, e)
        (zero, omega arith, ground (arith, e), refl, ((λ h. fresh-IsReady pid log m), rs))
  | inr e ↦
      rw (alloc_from, e)
        (next-Allocated pid i log logs (alloc_from pid (i + 1) logs) (λ z. ground (arith, e, z)) r
          (alloc_from-Allocated pid (i + 1) logs rs ms))
]

-- `log_worker_alloc` fails only when every logger has a process. Otherwise it answers the number of a
-- logger that had none, writes the pid into that logger and no other, and the queue is in order.
pub log_worker_alloc-Allocated :
    (pid : ℕ) (logs : List Logger)
    → AllReady logs
    → AllRoomy logs
    → Allocated pid logs 0 (log_worker_alloc pid logs)
unfolding log_worker_alloc
log_worker_alloc-Allocated pid logs r m = alloc_from-Allocated pid 0 logs r m

alloc_from-none :
    (pid i : ℕ) (logs : List Logger) → NoneFree (pids_of logs) → alloc_from pid i logs ≡ none
unfolding alloc_from
alloc_from-none pid i [] h = refl
alloc_from-none pid i (log ∷ logs) (h, hs) =
    let e : (log.pid == 0) ≡ false = ground (arith, h) in
    rw (alloc_from, e, alloc_from-none pid (i + 1) logs hs) refl

pids_of-reset :
    (pid : ℕ) (logs : List Logger) → pids_of (log_worker_flush_and_reset pid logs) ≡ pids_of logs
unfolding log_worker_flush_and_reset
pids_of-reset pid [] = refl
pids_of-reset pid (log ∷ logs) = elim (Bool-cases (log.pid == pid)) [
  | inl e ↦ rw e (ap (◌∷◌ log.pid) (pids_of-reset pid logs))
  | inr e ↦ rw e (ap (◌∷◌ log.pid) (pids_of-reset pid logs))
]

-- When every logger has a process, one of them may end and be waited for, and still the process that
-- is started in its place gets no logger: only `log_scan_write` frees the logger.
pub log_worker_alloc-reset :
    (pid ended : ℕ) (logs : List Logger)
    → NoneFree (pids_of logs)
    → log_worker_alloc pid (log_worker_flush_and_reset ended logs) ≡ none
unfolding log_worker_alloc
log_worker_alloc-reset pid ended logs h =
    alloc_from-none pid 0 (log_worker_flush_and_reset ended logs) (rw (pids_of-reset ended logs) h)

-- what `log_init` leaves: nobody has a logger, and the slots of all of them are there
pub init_loggers-ready :
    (elem : List LogBuff) (n : ℕ)
    → log_elem_count ≤ length elem
    → AllReady (init_loggers elem n) × AllRoomy (init_loggers elem n)
unfolding init_loggers
init_loggers-ready elem zero h = (tt, tt)
init_loggers-ready elem (suc n) h =
    let (r, m) = init_loggers-ready elem n h in (((λ z. absurd (z refl)), r), (h, m))
