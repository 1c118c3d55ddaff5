-- ===== src/Util/Cirbuf/Defs.antt =====
-- The functions of src/util/cirbuf.h. The array that the caller has put behind `elem` is a list;
-- a slot has some content from the start, `blank`.
use cserv.Prelude.{ℕ, ◌+◌, ◌%◌, Bool, true, false, List, ◌==◌, if◌then◌else◌, get_or, set}

pub record Cirbuf {ℓ} (A : Type ℓ) : Type ℓ where
  pub elem_count : ℕ
  pub start : ℕ
  pub end : ℕ
  pub elem : List A

module _ {ℓ} {A : Type ℓ} where
  -- the other fields are set from the arguments, `elem` is left as it is
  unfoldable pub cirbuf_init : Cirbuf A → ℕ → Cirbuf A
  cirbuf_init queue elem_count = record queue { elem_count = elem_count; start = 0; end = 0 }

  unfoldable pub cirbuf_is_empty : Cirbuf A → Bool
  cirbuf_is_empty queue = queue.start == queue.end

  unfoldable pub cirbuf_is_full : Cirbuf A → Bool
  cirbuf_is_full queue = (queue.end + 1) % queue.elem_count == queue.start

  module _ (blank : A) where
    -- the producer; `false` is the result -1
    unfoldable pub cirbuf_write : (A → A) → Cirbuf A → Bool × Cirbuf A
    unfolding cirbuf_is_full
    cirbuf_write write_cb queue =
        let slot = write_cb (get_or queue.elem queue.end blank) in
        if cirbuf_is_full queue then (false, queue) else (
          true,
          record queue {
            elem = set queue.elem queue.end slot;
            end = (queue.end + 1) % queue.elem_count;
          },
        )

    -- the consumer, with its state
    unfoldable pub cirbuf_read {κ} : {S : Type κ} → (A → S → S) → Cirbuf A → S → Bool × Cirbuf A × S
    unfolding cirbuf_is_empty
    cirbuf_read read_cb queue args =
        let args' = read_cb (get_or queue.elem queue.start blank) args in
        if cirbuf_is_empty queue
        then (false, queue, args)
        else (true, record queue { start = (queue.start + 1) % queue.elem_count }, args')
