-- ===== src/Log/Queues.antt =====
-- What `copy_to_cache` of src/logger.c writes out.
use cserv.Prelude.{
  ℕ, zero, suc, ◌≤◌, ◌<◌, ◌≡◌, refl, sym, ap, ◌∙◌, arith, Bool, true, false, Option, some, List, [],
  ◌∷◌, ◌++◌, length,
}
use mathlib.Core.List.{append_assoc, append-nil}
use cserv.Util.Cirbuf.Defs.{Cirbuf, cirbuf_read}
use cserv.Util.Cirbuf.Laws.{IsValid, contents, length-contents, cirbuf_read-empty, cirbuf_read-cons}
use cserv.Log.Defs.{LogBuff, blank, Logger, Flusher, buff_size, log_read, read_all, copy_to_cache}
use cserv.Log.Flush.{Fits, output, message, IsWhole, log_read-output}

-- the messages of a queue, one behind the other
abbrev pub messages : List LogBuff → List ℕ
messages [] = []
messages (b ∷ bs) = message b ++ messages bs

abbrev pub AllWhole : List LogBuff → Type 0
AllWhole [] = Unit
AllWhole (b ∷ bs) = IsWhole b × AllWhole bs

-- the queue is empty, and its messages have been appended to the output
pub record Drained (page_size : ℕ) (bs : List LogBuff) (f : Flusher)
    (r : Cirbuf LogBuff × Option Flusher) : Type 0 where
  pub after : Flusher
  pub reads : r.1 ≡ some after
  pub after_valid : Fits page_size after
  pub appended : output after ≡ output f ++ messages bs
  pub queue_valid : IsValid r.0
  pub queue_empty : contents blank r.0 ≡ []

-- a round of the loop, by what `cirbuf_read` answers
abbrev next_round : ℕ → ℕ → Bool × Cirbuf LogBuff × Option Flusher → Cirbuf LogBuff × Option Flusher
next_round page_size fuel (false, q, f) = (q, f)
next_round page_size fuel (true, q, f) = read_all page_size fuel q f

next_round_lem :
    (page_size fuel : ℕ) (r : Bool × Cirbuf LogBuff × Option Flusher)
    → (let (more, q', f') = r in
        elim more [ false ↦ (q', f') | true ↦ read_all page_size fuel q' f' ])
      ≡ next_round page_size fuel r
next_round_lem page_size fuel (false, q, f) = refl
next_round_lem page_size fuel (true, q, f) = refl

read_all-suc :
    (page_size fuel : ℕ) (q : Cirbuf LogBuff) (f : Option Flusher)
    (r : Bool × Cirbuf LogBuff × Option Flusher)
    → cirbuf_read blank (log_read page_size) q f ≡ r
    → read_all page_size (suc fuel) q f ≡ next_round page_size fuel r
unfolding read_all
read_all-suc page_size fuel q f r e =
    ap
      (λ x.
        let (more, q', f') = x in
        elim more [ false ↦ (q', f') | true ↦ read_all page_size fuel q' f' ])
      e
    ∙ next_round_lem page_size fuel r

read_all-Drained :
    (page_size fuel : ℕ) (bs : List LogBuff) (q : Cirbuf LogBuff) (f : Flusher)
    → buff_size ≤ page_size
    → length bs < fuel
    → contents blank q ≡ bs
    → AllWhole bs
    → IsValid q
    → Fits page_size f
    → Drained page_size bs f (read_all page_size fuel q (some f))
read_all-Drained page_size zero bs q f h l c w v u = absurd (ground (arith, l))
read_all-Drained page_size (suc fuel) [] q f h l c w v u =
    rw
      (read_all-suc page_size fuel q (some f) _
        (cirbuf_read-empty blank (log_read page_size) q (some f) v c))
      (record {
        after = f;
        reads = refl;
        after_valid = u;
        appended = sym (append-nil (output f));
        queue_valid = v;
        queue_empty = c;
      })
read_all-Drained page_size (suc fuel) (b ∷ bs) q f h l c (wb, w) v u =
    let (q', e, v', c') = cirbuf_read-cons blank (log_read page_size) q (some f) b bs v c in
    let (f', r, u', o) = log_read-output page_size b f h wb u in
    let d = read_all-Drained page_size fuel bs q' f' h (omega (arith, l)) c' w v' u' in
    rw (read_all-suc page_size fuel q (some f) _ e, r)
      (record {
        after = d.after;
        reads = d.reads;
        after_valid = d.after_valid;
        appended =
            d.appended
            ∙ ap (λ z. z ++ messages bs) o
            ∙ append_assoc (output f) (message b) (messages bs);
        queue_valid = d.queue_valid;
        queue_empty = d.queue_empty;
      })

-- the queue of a logger is in order, and its messages have not been cut
pub record IsReady (log : Logger) : Type 0 where
  pub queue : IsValid log.queue
  pub whole : AllWhole (contents blank log.queue)

pub copy_to_cache-Drained :
    (page_size : ℕ) (log : Logger) (f : Flusher)
    → buff_size ≤ page_size
    → IsReady log
    → Fits page_size f
    → Drained page_size
        (contents blank log.queue)
        f
        ((copy_to_cache page_size log (some f)).0.queue, (copy_to_cache page_size log (some f)).1)
unfolding copy_to_cache
copy_to_cache-Drained page_size log f h r u =
    read_all-Drained page_size log.queue.elem_count (contents blank log.queue) log.queue f h
      (ground (arith, length-contents blank log.queue, r.queue.start_in, r.queue.end_in)) refl
      r.whole r.queue u
