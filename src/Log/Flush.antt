-- ===== src/Log/Flush.antt =====
-- What `log_read` and `log_flush` of src/logger.c do to the output.
use cserv.Prelude.{
  ℕ, ◌+◌, ◌-◌, ◌≤◌, ◌<◌, ◌≡◌, refl, sym, ap, ◌∙◌, arith, true, false, Bool-cases, inl, inr, some,
  List, [], ◌∷◌, ◌++◌, length, length-append, length-take_le, take, drop, take_of_le,
  take-length_append, ltb, ◌==◌,
}
use mathlib.Core.List.{append_assoc, append-nil}
use cserv.Log.Defs.{LogBuff, Flusher, buff_size, log_flush, log_read, log_write}

-- the bytes of the calls of `write`, one call after the other
abbrev pub joined : List (List ℕ) → List ℕ
joined [] = []
joined (x ∷ xs) = x ++ joined xs

pub joined-append : (xs ys : List (List ℕ)) → joined (xs ++ ys) ≡ joined xs ++ joined ys
joined-append [] ys = refl
joined-append (x ∷ xs) ys =
    ap (λ z. x ++ z) (joined-append xs ys) ∙ sym (append_assoc x (joined xs) (joined ys))

-- all that has been given to the log: what is in the file, and then the page
abbrev pub output : Flusher → List ℕ
output f = joined f.written ++ f.flush_page

-- the file is open, and the page is not overrun
pub record Fits (page_size : ℕ) (f : Flusher) : Type 0 where
  pub is_open : 0 < f.logger_fd
  pub fits : length f.flush_page ≤ page_size

length-zero : (xs : List ℕ) → length xs ≡ 0 → xs ≡ []
length-zero [] e = refl
length-zero (x ∷ xs) e = absurd (ground (arith, e))

-- a flush loses nothing, and empties the page
pub record Flushed (before after : Flusher) : Type 0 where
  pub output_same : output after ≡ output before
  pub page_empty : after.flush_page ≡ []
  pub fd_same : after.logger_fd ≡ before.logger_fd

pub log_flush-Flushed : (page_size : ℕ) (f : Flusher) → Fits page_size f → Flushed f (log_flush f)
unfolding log_flush
log_flush-Flushed page_size f v = elim (Bool-cases (length f.flush_page == 0)) [
  | inl e ↦ rw e (record {
    output_same = refl;
    page_empty = length-zero f.flush_page (ground (arith, e));
    fd_same = refl;
  })
  | inr e ↦
      let o : ltb 0 f.logger_fd ≡ true = ground (arith, v.is_open) in
      rw (e, o)
        (record {
          output_same =
              append-nil (joined (f.written ++ (f.flush_page ∷ [])))
              ∙ joined-append f.written (f.flush_page ∷ [])
              ∙ ap (λ z. joined f.written ++ z) (append-nil f.flush_page);
          page_empty = refl;
          fd_same = refl;
        })
]

-- the bytes that a slot stands for
abbrev pub message : LogBuff → List ℕ
message b = take b.len b.buff

-- a message that has not been cut
abbrev pub IsWhole : LogBuff → Type 0
IsWhole b = b.len < buff_size

-- `log_read` appends the message of a slot to the output, and keeps to the page
pub log_read-output :
    (page_size : ℕ) (b : LogBuff) (f : Flusher)
    → buff_size ≤ page_size
    → IsWhole b
    → Fits page_size f
    → (f' : Flusher) × (log_read page_size b (some f) ≡ some f')
      × Fits page_size f'
      × (output f' ≡ output f ++ message b)
unfolding log_read
log_read-output page_size b f h w v =
    let n : ltb buff_size b.len ≡ false = ground (arith, w) in
    elim (Bool-cases (ltb (page_size - length f.flush_page) b.len)) [
      | inl e ↦
          let x = log_flush-Flushed page_size f v in
          (
            record (log_flush f) { flush_page = (log_flush f).flush_page ++ message b },
            rw (n, e) refl,
            record {
              is_open = rw x.fd_same v.is_open;
              fits = rw x.page_empty (omega (arith, length-take_le b.len b.buff, h, w));
            },
            sym (append_assoc (joined (log_flush f).written) (log_flush f).flush_page (message b))
                ∙ ap (λ z. z ++ message b) x.output_same,
          )
      | inr e ↦ (
        record f { flush_page = f.flush_page ++ message b },
        rw (n, e) refl,
        record {
          is_open = v.is_open;
          fits =
              rw (length-append f.flush_page (message b))
                (ground (arith, length-take_le b.len b.buff, e, v.fits));
        },
        sym (append_assoc (joined f.written) f.flush_page (message b)),
      )
    ]

-- A text of at most 1015 bytes that `log_write` has put into a slot is read back as it is.
pub log_write-message :
    (text : List ℕ) (slot : LogBuff)
    → length text < buff_size
    → message (log_write text slot) ≡ text
unfolding log_write
log_write-message text slot h =
    let whole : take (buff_size - 1) text ≡ text = take_of_le (buff_size - 1) text (omega arith) in
    rw whole (take-length_append text (0 ∷ drop (length text + 1) slot.buff))
