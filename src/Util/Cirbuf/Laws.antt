-- ===== src/Util/Cirbuf/Laws.antt =====
-- src/util/cirbuf.h as a queue: what is written comes out in order, and never more than
-- `elem_count - 1` elements are in the buffer.
use mathlib.Core.Path.{ap₂}
use native.Mathlib.Nat.{mod-eq_of_lt}
use cserv.Prelude.{
  ℕ, zero, suc, ◌+◌, ◌-◌, ◌%◌, ◌≤◌, ◌<◌, ◌≡◌, ◌≢◌, refl, ap, ◌∙◌, sym, true, false, List, [], ◌∷◌,
  ◌++◌, ltb, leb, if◌then◌else◌, arith, get_or, set, length, length-set, get_or-set, Bool-cases,
  inl, inr,
}
use cserv.Util.Cirbuf.Defs.{Cirbuf, cirbuf_write, cirbuf_read}

-- an index that has gone at most once beyond the end
abbrev pub wrap : ℕ → ℕ → ℕ
wrap n i = if ltb i n then i else i - n

mod-wrap : (i n : ℕ) → i < n → (i + 1) % n ≡ wrap n (i + 1)
mod-wrap i n h = elim (Bool-cases (ltb (i + 1) n)) [
  | inl e ↦ rw e (mod-eq_of_lt (ground arith))
  | inr e ↦ let last : i + 1 ≡ n = ground arith in rw (e, last) (grind arith)
]

module _ {A : Type 0} where
  -- both indices name slots of the array
  pub record IsValid (q : Cirbuf A) : Type 0 where
    pub start_in : q.start < q.elem_count
    pub end_in : q.end < q.elem_count
    pub room : q.elem_count ≤ length q.elem

  abbrev pub size : Cirbuf A → ℕ
  size q = if leb q.start q.end then q.end - q.start else q.end + q.elem_count - q.start

module _ {A : Type 0} (blank : A) where
  -- the `k` slots from index `s` on
  abbrev window : List A → ℕ → ℕ → ℕ → List A
  window elem n s zero = []
  window elem n s (suc k) = get_or elem s blank ∷ window elem n (wrap n (s + 1)) k

  -- what the buffer holds, oldest first
  abbrev pub contents : Cirbuf A → List A
  contents q = window q.elem q.elem_count q.start (size q)

  length-window : (elem : List A) (n s k : ℕ) → length (window elem n s k) ≡ k
  length-window elem n s zero = refl
  length-window elem n s (suc k) = ap suc (length-window elem n (wrap n (s + 1)) k)

  window-set :
      (elem : List A) (n s k i : ℕ) (v : A)
      → n ≤ length elem
      → s < n
      → k < n
      → i ≡ wrap n (s + k)
      → window (set elem i v) n s (suc k) ≡ window elem n s k ++ v ∷ []
  window-set elem n s zero i v room hs hk e = ground (arith, get_or-set elem i s v blank)
  window-set elem n s (suc k) i v room hs hk e =
      let rest =
        window-set elem n (wrap n (s + 1)) k i v room (ground arith) (omega arith) (ground arith) in
      let same : get_or (set elem i v) s blank ≡ get_or elem s blank =
        ground (arith, get_or-set elem i s v blank) in
      ap₂ ◌∷◌ same rest

  pub length-contents : (q : Cirbuf A) → length (contents q) ≡ size q
  length-contents q = length-window q.elem q.elem_count q.start (size q)

  -- the buffer after a write, and after a read
  written : (A → A) → Cirbuf A → Cirbuf A
  written write_cb q = record q {
    elem = set q.elem q.end (write_cb (get_or q.elem q.end blank));
    end = wrap q.elem_count (q.end + 1);
  }

  consumed : Cirbuf A → Cirbuf A
  consumed q = record q { start = wrap q.elem_count (q.start + 1) }

  written_lem :
      (write_cb : A → A) (q : Cirbuf A)
      → IsValid q
      → size q + 1 < q.elem_count
      → cirbuf_write blank write_cb q ≡ (true, written write_cb q)
  unfolding cirbuf_write written
  written_lem write_cb q v h = rw (mod-wrap q.end q.elem_count v.end_in) (ground arith)

  consumed_lem :
      {S : Type 0} (read_cb : A → S → S) (q : Cirbuf A) (args : S)
      → IsValid q
      → size q ≢ 0
      → cirbuf_read blank read_cb q args
        ≡ (true, consumed q, read_cb (get_or q.elem q.start blank) args)
  unfolding cirbuf_read consumed
  consumed_lem read_cb q args v h = rw (mod-wrap q.start q.elem_count v.start_in) (ground arith)

  size-written :
      (write_cb : A → A) (q : Cirbuf A)
      → IsValid q
      → size q + 1 < q.elem_count
      → size (written write_cb q) ≡ suc (size q)
  unfolding written
  size-written write_cb q v h = ground arith

  contents-written :
      (write_cb : A → A) (q : Cirbuf A)
      → IsValid q
      → size q + 1 < q.elem_count
      → contents (written write_cb q) ≡ contents q ++ write_cb (get_or q.elem q.end blank) ∷ []
  unfolding written
  contents-written write_cb q v h =
      ap (window _ q.elem_count q.start) (size-written write_cb q v h)
      ∙ window-set q.elem q.elem_count q.start (size q) q.end _ v.room v.start_in (omega arith)
          (ground arith)

  -- `cirbuf_write` fails on a buffer that holds `elem_count - 1` elements, and changes nothing.
  pub cirbuf_write-full :
      (write_cb : A → A) (q : Cirbuf A)
      → IsValid q
      → length (contents q) + 1 ≡ q.elem_count
      → cirbuf_write blank write_cb q ≡ (false, q)
  unfolding cirbuf_write
  cirbuf_write-full write_cb q v h =
      rw (mod-wrap q.end q.elem_count v.end_in) (ground (arith, length-contents q))

  -- With fewer elements `cirbuf_write` succeeds. It appends what the producer makes of the free
  -- slot to what the buffer holds, and the indices stay inside the array.
  pub cirbuf_write-append :
      (write_cb : A → A) (q : Cirbuf A)
      → IsValid q
      → length (contents q) + 1 < q.elem_count
      → (q' : Cirbuf A) × (cirbuf_write blank write_cb q ≡ (true, q'))
        × IsValid q'
        × (contents q' ≡ contents q ++ write_cb (get_or q.elem q.end blank) ∷ [])
  cirbuf_write-append write_cb q v h =
      let h' : size q + 1 < q.elem_count = omega (arith, length-contents q) in
      (
        written write_cb q,
        written_lem write_cb q v h',
        unfold written in
            ground (arith, length-set q.elem q.end (write_cb (get_or q.elem q.end blank))),
        contents-written write_cb q v h',
      )

  -- `cirbuf_read` fails on an empty buffer, and changes nothing.
  pub cirbuf_read-empty :
      {S : Type 0} (read_cb : A → S → S) (q : Cirbuf A) (args : S)
      → IsValid q
      → contents q ≡ []
      → cirbuf_read blank read_cb q args ≡ (false, q, args)
  unfolding cirbuf_read
  cirbuf_read-empty read_cb q args v h = ground (arith, length-contents q, ap length h)

  contents-consumed :
      (q : Cirbuf A) (k : ℕ)
      → IsValid q
      → size q ≡ suc k
      → contents q ≡ get_or q.elem q.start blank ∷ contents (consumed q)
  unfolding consumed
  contents-consumed q k v h =
      ap (window q.elem q.elem_count q.start) h
      ∙ ap
          (λ n.
            get_or q.elem q.start blank
            ∷ window q.elem q.elem_count (wrap q.elem_count (q.start + 1)) n)
          (ground arith)

  -- From a buffer that holds `x`, oldest, and then `xs`, `cirbuf_read` hands `x` to the consumer and
  -- leaves `xs`; the indices stay inside the array.
  pub cirbuf_read-cons :
      {S : Type 0} (read_cb : A → S → S) (q : Cirbuf A) (args : S) (x : A) (xs : List A)
      → IsValid q
      → contents q ≡ x ∷ xs
      → (q' : Cirbuf A) × (cirbuf_read blank read_cb q args ≡ (true, q', read_cb x args))
        × IsValid q'
        × (contents q' ≡ xs)
  cirbuf_read-cons read_cb q args x xs v h =
      let some_left : size q ≡ suc (length xs) = sym (length-contents q) ∙ ap length h in
      let split = sym h ∙ contents-consumed q (length xs) v some_left in
      (
        consumed q,
        consumed_lem read_cb q args v (omega arith) ∙ cc split,
        unfold consumed in ground arith,
        cc split,
      )
