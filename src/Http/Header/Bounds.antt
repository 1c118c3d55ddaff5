-- ===== src/Http/Header/Bounds.antt =====
-- What `http_parse_request_header` (src/http/parse.c) records lies inside the bytes read so far, its
-- writes to `lowcase_header` are in bounds, and every call makes progress.
use mathlib.Core.Path.{subst}
use native.Mathlib.Nat.{add-zero}
use cserv.Prelude.{
  ℕ, ◌+◌, ◌≤◌, ◌<◌, ◌≡◌, refl, ap, ◌∙◌, arith, List, [], ◌∷◌, length, length-drop, length-set, drop,
}
use cserv.Http.Types.{Buffer, last, HttpRequest}
use cserv.Http.Line.Bounds.{Begun, Within}
use cserv.Http.Header.State.{
  HeaderState, s_start, s_name, s_space_before_value, s_value, s_space_after_value, s_almost_done,
  s_header_almost_done, header_code, lc_header_len, lowcase, Locals, HeaderStep, next, done,
  header_done, fail,
}
use cserv.Http.Header.Steps.{
  header_start, header_name, header_space_before_value, header_value, header_space_after_value,
  header_almost_done, header_header_almost_done, header_step,
}
use cserv.Http.Header.Loop.{
  HeaderResult, line, all, leave, header_loop, http_parse_request_header, header_loop-nil,
  header_loop-next, header_loop-done, header_loop-header_done, header_loop-fail, parse-header_loop,
}

-- what the strings of a header are in each state
abbrev pub Spans : HeaderState → HttpRequest → ℕ → Type 0
Spans s_start r p = Unit
Spans s_name r p = Begun r.header_name p
Spans s_space_before_value r p = Within r.header_name p
Spans s_value r p = Within r.header_name p × Begun r.header_value p
Spans s_space_after_value r p = Within r.header_name p × Within r.header_value p
Spans s_almost_done r p = Within r.header_name p × Within r.header_value p
Spans s_header_almost_done r p = Unit

-- the table has its size, and the index is in range
abbrev pub Inv : HeaderState → HttpRequest → Locals → ℕ → Type 0
Inv s r l p = (length r.lowcase_header ≡ lc_header_len) × (l.i < lc_header_len) × Spans s r p

-- a round leaves the buffer alone
abbrev StepInv : Buffer → ℕ → HeaderStep → Type 0
StepInv b p (next s r l) = (r.header ≡ b) × Inv s r l (p + 1)
StepInv b p (done r l) = (r.header ≡ b) × Inv s_almost_done r l (p + 1)
StepInv b p (header_done r) = (r.header ≡ b) × (length r.lowcase_header ≡ lc_header_len)
StepInv b p (fail n) = Unit {0}

header_step-Inv :
    (s : HeaderState) (r : HttpRequest) (l : Locals) (p ch : ℕ)
    → Inv s r l p
    → StepInv r.header p (header_step s r l p ch)
unfolding header_step header_start header_name header_space_before_value header_value
    header_space_after_value header_almost_done header_header_almost_done
header_step-Inv s_start r l p ch h = ground (arith, length-set r.lowcase_header 0 (lowcase ch))
header_step-Inv _ r l p ch h = ground (arith, length-set r.lowcase_header l.i (lowcase ch))

-- the buffer with another position
abbrev pub at_pos : ℕ → Buffer → Buffer
at_pos n b = record b { pos = n }

abbrev pub Table : HttpRequest → Type 0
Table r = (length r.lowcase_header ≡ lc_header_len)

-- the local variables that a call starts with
abbrev pub stored : HttpRequest → Locals
stored r = record { hash = r.header_hash; i = r.lowcase_index }

-- the result of a run from the offset `p` to the offset `n`
abbrev pub ResultInv : Buffer → ℕ → ℕ → HeaderResult → Type 0
ResultInv b p n (line r) =
    (r.header ≡ at_pos r.header.pos b)
    × (p < r.header.pos)
    × (r.header.pos ≤ n)
    × (r.state ≡ header_code s_start)
    × Inv s_almost_done r (stored r) r.header.pos
ResultInv b p n (all r) =
    (r.header ≡ at_pos r.header.pos b) × (p < r.header.pos) × (r.header.pos ≤ n) × Table r
ResultInv b p n (HeaderResult.more r) =
    (r.header ≡ at_pos n b) × ((s : HeaderState) × (r.state ≡ header_code s) × Inv s r (stored r) n)
ResultInv b p n (HeaderResult.error e) = Unit {0}

data StepCases (t : HeaderStep) : Type 0 where
  next_is : (s : HeaderState) (r : HttpRequest) (l : Locals) → t ≡ next s r l → StepCases t
  done_is : (r : HttpRequest) (l : Locals) → t ≡ done r l → StepCases t
  header_done_is : (r : HttpRequest) → t ≡ header_done r → StepCases t
  fail_is : (n : ℕ) → t ≡ fail n → StepCases t

step-cases : (t : HeaderStep) → StepCases t
step-cases (next s r l) = next_is s r l refl
step-cases (done r l) = done_is r l refl
step-cases (header_done r) = header_done_is r refl
step-cases (fail n) = fail_is n refl

pub Inv-leave :
    (s s' : HeaderState) (r : HttpRequest) (l : Locals) (p n : ℕ)
    → Inv s r l p
    → Inv s (leave s' r l n) l p
Inv-leave s_start s' r l p n h = h
Inv-leave _ s' r l p n h = h

ResultInv-later :
    (b : Buffer) (p n n' : ℕ) (t : HeaderResult)
    → n ≡ n'
    → ResultInv b (p + 1) n t
    → ResultInv b p n' t
ResultInv-later b p n n' (line r) e (buf, lt, le, st, inv) =
    (buf, omega arith, omega arith, st, inv)
ResultInv-later b p n n' (all r) e (buf, lt, le, tab) = (buf, omega arith, omega arith, tab)
ResultInv-later b p n n' (HeaderResult.more r) e h =
    subst (λ k. ResultInv b p k (HeaderResult.more r)) e h
ResultInv-later b p n n' (HeaderResult.error m) e h = h

header_loop-Inv :
    (b : Buffer) (rest : List ℕ) (s : HeaderState) (r : HttpRequest) (l : Locals) (p : ℕ)
    → r.header ≡ b
    → Inv s r l p
    → ResultInv b p (p + length rest) (header_loop s r l p rest)
header_loop-Inv b [] s r l p e h =
    rw (header_loop-nil s r l p, add-zero) (ap (at_pos p) e, (s, refl, Inv-leave s s r l p p h))
header_loop-Inv b (ch ∷ rest) s r l p e h = elim (step-cases (header_step s r l p ch)) [
  | next_is s' r' l' t ↦
      let k = rw t at (header_step-Inv s r l p ch h) in
      rw (header_loop-next s r l p ch rest t) (
        ResultInv-later b p (p + 1 + length rest) (p + length (ch ∷ rest))
          (header_loop s' r' l' (p + 1) rest) (omega arith)
          (header_loop-Inv b rest s' r' l' (p + 1) (k.0 ∙ e) k.1))
  | done_is r' l' t ↦
      let k = rw t at (header_step-Inv s r l p ch h) in
      rw (header_loop-done s r l p ch rest t)
        (ap (at_pos (p + 1)) (k.0 ∙ e), omega arith, omega arith, refl, k.1)
  | header_done_is r' t ↦
      let k = rw t at (header_step-Inv s r l p ch h) in
      rw (header_loop-header_done s r l p ch rest t)
        (ap (at_pos (p + 1)) (k.0 ∙ e), omega arith, omega arith, k.1)
  | fail_is n t ↦ rw (header_loop-fail s r l p ch rest t) tt
]

-- `http_parse_request_header`, started in a state whose claims hold, changes nothing of the buffer
-- but `pos`. After a line, and at the end of all headers, `pos` has moved on and is no further than
-- `last`; the name and the value of a line lie in front of it. When it asks for more, `pos` is
-- `last`. The table `lowcase_header` keeps its 32 bytes and its index stays below 32, so that every
-- later write to it is in bounds too.
pub http_parse_request_header-Inv :
    (s : HeaderState) (r : HttpRequest)
    → r.state ≡ header_code s
    → r.header.pos ≤ last r.header
    → Inv s r (stored r) r.header.pos
    → ResultInv r.header r.header.pos (last r.header) (http_parse_request_header r)
http_parse_request_header-Inv s r st le h = rw (parse-header_loop s r st) (
    subst
      (λ n.
        ResultInv r.header r.header.pos n
          (header_loop s r (stored r) r.header.pos (drop r.header.pos r.header.mem)))
      (omega (arith, length-drop r.header.pos r.header.mem))
      (header_loop-Inv r.header (drop r.header.pos r.header.mem) s r (stored r) r.header.pos refl
        h))
