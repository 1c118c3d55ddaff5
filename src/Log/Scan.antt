-- ===== src/Log/Scan.antt =====
-- What `log_scan_write` of src/logger.c writes out.
use cserv.Prelude.{
  ℕ, ◌≤◌, ◌≡◌, ◌≢◌, refl, sym, ap, ◌∙◌, arith, true, false, Bool-cases, inl, inr, Option, some,
  List, [], ◌∷◌, ◌++◌, ◌==◌, if◌then◌else◌,
}
use mathlib.Core.List.{append_assoc, append-nil}
use cserv.Util.Cirbuf.Laws.{contents}
use cserv.Log.Defs.{
  blank, Logger, Flusher, buff_size, log_flush, copy_to_cache, scan_loggers, log_scan_write,
  flushed,
}
use cserv.Log.Flush.{Fits, joined, output, log_flush-Flushed}
use cserv.Log.Queues.{messages, Drained, IsReady, copy_to_cache-Drained}

-- what the loggers in use hold, in their order
abbrev pub pending : List Logger → List ℕ
pending [] = []
pending (log ∷ logs) =
    (if log.pid == 0 then [] else messages (contents blank log.queue)) ++ pending logs

abbrev pub AllReady : List Logger → Type 0
AllReady [] = Unit
AllReady (log ∷ logs) = (log.pid ≢ 0 → IsReady log) × AllReady logs

-- what a scan leaves: the pids, without those whose process has ended, in loggers that are ready
abbrev pub left_pids : List Logger → List ℕ
left_pids [] = []
left_pids (log ∷ logs) =
    (if log.pid == 0 then 0 else if log.need_init then 0 else log.pid) ∷ left_pids logs

abbrev pub pids_of : List Logger → List ℕ
pids_of [] = []
pids_of (log ∷ logs) = log.pid ∷ pids_of logs

pub record Scanned (page_size : ℕ) (logs : List Logger) (f : Flusher)
    (r : List Logger × Option Flusher) : Type 0 where
  pub after : Flusher
  pub reads : r.1 ≡ some after
  pub after_valid : Fits page_size after
  pub appended : output after ≡ output f ++ pending logs
  pub pids : pids_of r.0 ≡ left_pids logs
  pub ready : AllReady r.0
  pub nothing_left : pending r.0 ≡ []

-- a logger without a process is passed over
passed_over-Scanned :
    (page_size : ℕ) (log : Logger) (logs : List Logger) (f : Flusher)
    (r : List Logger × Option Flusher)
    → (log.pid == 0) ≡ true
    → (log.pid ≢ 0 → IsReady log)
    → Scanned page_size logs f r
    → Scanned page_size (log ∷ logs) f (log ∷ r.0, r.1)
passed_over-Scanned page_size log logs f r e v s =
    let z : log.pid ≡ 0 = ground (arith, e) in
    record {
      after = s.after;
      reads = s.reads;
      after_valid = s.after_valid;
      appended = rw e s.appended;
      pids = rw (e, z) (ap (◌∷◌ 0) s.pids);
      ready = (v, s.ready);
      nothing_left = rw e s.nothing_left;
    }

-- a logger that has been drained, and then the others
Drained-Scanned :
    (page_size : ℕ) (log after : Logger) (logs : List Logger) (f : Flusher) (g : Option Flusher)
    (r : List Logger × Option Flusher)
    → (log.pid == 0) ≡ false
    → after.pid ≡ (if log.need_init then 0 else log.pid)
    → (d : Drained page_size (contents blank log.queue) f (after.queue, g))
    → Scanned page_size logs d.after r
    → Scanned page_size (log ∷ logs) f (after ∷ r.0, r.1)
Drained-Scanned page_size log after logs f g r e p d s = record {
  after = s.after;
  reads = s.reads;
  after_valid = s.after_valid;
  appended = rw e (
      s.appended
      ∙ ap (λ z. z ++ pending logs) d.appended
      ∙ append_assoc (output f) (messages (contents blank log.queue)) (pending logs));
  pids = rw (e, p) (ap (◌∷◌ (if log.need_init then 0 else log.pid)) s.pids);
  ready = ((λ h. record { queue = d.queue_valid; whole = rw d.queue_empty tt }), s.ready);
  nothing_left = rw (d.queue_empty, s.nothing_left) (ground arith);
}

scan_loggers-Scanned :
    (page_size : ℕ) (logs : List Logger) (f : Flusher)
    → buff_size ≤ page_size
    → AllReady logs
    → Fits page_size f
    → Scanned page_size logs f (scan_loggers page_size logs (some f))
unfolding scan_loggers
scan_loggers-Scanned page_size [] f h r u = record {
  after = f;
  reads = refl;
  after_valid = u;
  appended = sym (append-nil (output f));
  pids = refl;
  ready = tt;
  nothing_left = refl;
}
scan_loggers-Scanned page_size (log ∷ logs) f h (r, rs) u = elim (Bool-cases (log.pid == 0)) [
  | inl e ↦
      rw (scan_loggers, e)
        (passed_over-Scanned page_size log logs f (scan_loggers page_size logs (some f)) e r
          (scan_loggers-Scanned page_size logs f h rs u))
  | inr e ↦
      let d = copy_to_cache-Drained page_size log f h (r (λ z. ground (arith, e, z))) u in
      rw (scan_loggers, e)
        (Drained-Scanned page_size log (copy_to_cache page_size log (some f)).0 logs f
          (copy_to_cache page_size log (some f)).1
          (scan_loggers page_size logs (copy_to_cache page_size log (some f)).1) e
          (unfold copy_to_cache in refl) d
          (rw d.reads (scan_loggers-Scanned page_size logs d.after h rs d.after_valid)))
]

-- `log_scan_write` writes out all that the loggers in use hold, in their order and behind all that
-- was written or on the page before. It leaves the page and the queues of these loggers empty, and
-- frees exactly the loggers whose process has been reset, so that it can be called again.
pub log_scan_write-pending :
    (page_size : ℕ) (logs : List Logger) (f : Flusher)
    → buff_size ≤ page_size
    → AllReady logs
    → Fits page_size f
    → (after : Flusher) × ((log_scan_write page_size logs f).1 ≡ some after)
      × (joined after.written ≡ output f ++ pending logs)
      × (after.flush_page ≡ [])
      × (pids_of (log_scan_write page_size logs f).0 ≡ left_pids logs)
      × AllReady (log_scan_write page_size logs f).0
      × (pending (log_scan_write page_size logs f).0 ≡ [])
unfolding log_scan_write
log_scan_write-pending page_size logs f h r u =
    let s = scan_loggers-Scanned page_size logs f h r u in
    let x = log_flush-Flushed page_size s.after s.after_valid in
    (
      log_flush s.after,
      ap flushed s.reads,
      sym (append-nil (joined (log_flush s.after).written))
          ∙ ap (λ z. joined (log_flush s.after).written ++ z) (sym x.page_empty)
          ∙ x.output_same
          ∙ s.appended,
      x.page_empty,
      s.pids,
      s.ready,
      s.nothing_left,
    )
