-- ===== src/Http/Line/Outcome.antt =====
-- `http_parse_request_line` on a line whose minor version number is 9.
use cserv.Prelude.{
  ℕ, ◌≤◌, ◌≡◌, ◌≢◌, refl, sym, ◌∙◌, arith, true, Bool-cases, inl, inr, List, ◌∷◌, ◌++◌, length,
}
use cserv.Http.Types.{HttpMethod, http_get, http_unknown, HttpRequest}
use cserv.Http.Line.State.{s_start, line_code}
use cserv.Http.Line.Loop.{
  is_get, LineResult, complete, more, error, line_done, http_parse_request_line,
}
use cserv.Http.Line.RoundTrip.{AllPlain, name_of}
use cserv.Http.Line.Arrived.{print_line, arrived, method_slice, parse_started}

-- what is said of a request with this method that is taken for one of HTTP/0.9
abbrev pub TakenForOld : HttpMethod → LineResult → Type 0
TakenForOld m (complete r') =
    (m ≡ http_get) × (r'.method ≡ http_get) × (r'.http_version ≡ 9) × (r'.http_major ≡ 0)
TakenForOld m (error n) = (m ≢ http_get) × (n ≡ 25)
TakenForOld m (more r') = ⊥

is_get-true : (m : HttpMethod) → is_get m ≡ true → m ≡ http_get
is_get-true http_get h = refl
is_get-true _ h = cc

is_get-get : (m : HttpMethod) → m ≡ http_get → is_get m ≡ true
is_get-get m e = rw e refl

line_done-TakenForOld :
    (m : HttpMethod) (r : HttpRequest) (i : ℕ)
    → r.method ≡ m
    → r.http_minor ≡ 9
    → TakenForOld m (line_done r i)
unfolding line_done
line_done-TakenForOld m r i e f = elim (Bool-cases (is_get r.method)) [
  | inl g ↦
      let get : r.method ≡ http_get = is_get-true r.method g in
      rw (line_done, f, g) (sym e ∙ get, get, refl, refl)
  | inr g ↦ rw (line_done, f, g) (λ k. cc (is_get-get r.method (e ∙ k)), refl)
]

module _ (r : HttpRequest) (pre : List ℕ) (m : HttpMethod) (body : List ℕ) (x : ℕ) (rest : List ℕ)
    (buffer : r.header.mem ≡ pre ++ print_line m (b'/' ∷ body) x 9 rest)
    (at : r.header.pos ≡ length pre) (begun : r.state ≡ line_code s_start)
    (known : m ≢ http_unknown) (plain : AllPlain body) (x_low : 1 ≤ x) (x_high : x ≤ 9) where
  -- A request line that names a known method, a target that starts with a slash and holds no space,
  -- CR, LF or NUL, and a version x.9 with x from 1 to 9, read from the state s_start wherever it
  -- stands in the buffer, is taken for one of HTTP/0.9: with the method GET it is complete, with
  -- the version number 9 and the major number 0, and with every other method it is refused by
  -- error 25.
  pub http_parse_request_line-minor_nine : TakenForOld m (http_parse_request_line r)
  http_parse_request_line-minor_nine =
      let name = name_of m known in
      let a =
        arrived r.header.mem m r (length pre) name.first name.later body x 9 rest name.letters
          name.known (method_slice r pre m body x 9 rest buffer name) plain x_low x_high
          (omega arith) in
      rw (parse_started r pre m body x 9 rest buffer name at begun ∙ a.run)
        (line_done-TakenForOld m a.reached _ a.method a.minor)
