-- ===== src/Http/Header/Loop.antt =====
-- `http_parse_request_header` of src/http/parse.c: the loop over the bytes between `pos` and
-- `last`, and the code behind it.
use cserv.Prelude.{ℕ, ◌+◌, ◌≡◌, ◌∙◌, ap, refl, arith, none, some, List, [], ◌∷◌, drop}
use cserv.Http.Types.{last, HttpRequest}
use cserv.Http.Header.State.{
  HeaderState, s_start, header_state, header_code, header_state-code, Locals, next, done,
  header_done, fail,
}
use cserv.Http.Header.Steps.{header_step}

-- the result 0, 100, 1 or `-n`, with the request that the first three leave behind
pub data HeaderResult : Type 0 where
  line : HttpRequest → HeaderResult
  all : HttpRequest → HeaderResult
  more : HttpRequest → HeaderResult
  error : ℕ → HeaderResult

-- `b->pos = p; r->state = state; r->header_hash = hash; r->lowcase_index = i`
abbrev pub leave : HeaderState → HttpRequest → Locals → ℕ → HttpRequest
leave s r l p = record r {
  header = record r.header { pos = p };
  state = header_code s;
  header_hash = l.hash;
  lowcase_index = l.i;
}

unfoldable pub header_loop : HeaderState → HttpRequest → Locals → ℕ → List ℕ → HeaderResult
header_loop s r l p [] = more (leave s r l p)
header_loop s r l p (ch ∷ rest) = elim (header_step s r l p ch) [
  | next s' r' l' ↦ header_loop s' r' l' (p + 1) rest
  | done r' l' ↦ line (leave s_start r' l' (p + 1))
  | header_done r' ↦
      all (record r' { header = record r'.header { pos = p + 1 }; state = header_code s_start })
  | fail n ↦ error n
]

-- An `int` that is no enumerator selects no case, and every byte is passed over.
unfoldable pub http_parse_request_header : HttpRequest → HeaderResult
http_parse_request_header r =
    let b = r.header in
    let l : Locals = record { hash = r.header_hash; i = r.lowcase_index } in
    elim (header_state r.state) [
      | none ↦ more (record r { header = record b { pos = last b } })
      | some s ↦ header_loop s r l b.pos (drop b.pos b.mem)
    ]

module _ (s : HeaderState) (r : HttpRequest) (l : Locals) (p ch : ℕ) (rest : List ℕ) where
  pub header_loop-next :
      {s' : HeaderState} {r' : HttpRequest} {l' : Locals}
      → header_step s r l p ch ≡ next s' r' l'
      → header_loop s r l p (ch ∷ rest) ≡ header_loop s' r' l' (p + 1) rest
  unfolding header_loop
  header_loop-next e = ground (arith, e)

  pub header_loop-done :
      {r' : HttpRequest} {l' : Locals}
      → header_step s r l p ch ≡ done r' l'
      → header_loop s r l p (ch ∷ rest) ≡ line (leave s_start r' l' (p + 1))
  unfolding header_loop
  header_loop-done e = ground (arith, e)

  pub header_loop-header_done :
      {r' : HttpRequest}
      → header_step s r l p ch ≡ header_done r'
      → header_loop s r l p (ch ∷ rest)
        ≡ all (record r' { header = record r'.header { pos = p + 1 }; state = header_code s_start })
  unfolding header_loop
  header_loop-header_done e = ground (arith, e)

  pub header_loop-fail :
      {n : ℕ}
      → header_step s r l p ch ≡ fail n
      → header_loop s r l p (ch ∷ rest) ≡ HeaderResult.error n
  unfolding header_loop
  header_loop-fail e = ground (arith, e)

pub header_loop-nil :
    (s : HeaderState) (r : HttpRequest) (l : Locals) (p : ℕ)
    → header_loop s r l p [] ≡ HeaderResult.more (leave s r l p)
unfolding header_loop
header_loop-nil s r l p = refl

pub parse-header_loop :
    (s : HeaderState) (r : HttpRequest)
    → r.state ≡ header_code s
    → http_parse_request_header r
      ≡ header_loop s r
          (record { hash = r.header_hash; i = r.lowcase_index })
          r.header.pos
          (drop r.header.pos r.header.mem)
unfolding http_parse_request_header header_state header_loop
parse-header_loop s r e =
    let known : header_state r.state ≡ some s = ap header_state e ∙ header_state-code s in
    simp known
