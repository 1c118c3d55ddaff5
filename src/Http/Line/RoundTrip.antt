-- ===== src/Http/Line/RoundTrip.antt =====
-- `http_parse_request_line` reads back what a client writes: a method, a target that starts with a
-- slash, and a version.
use cserv.Prelude.{
  ℕ, suc, ◌+◌, ◌-◌, ◌≤◌, ◌≡◌, ◌≢◌, refl, ap, ◌∙◌, arith, true, false, some, List, [], ◌∷◌, ◌++◌,
  leb, length,
}
use cserv.Http.Types.{str_init, addr, str_bytes, cr, lf, HttpMethod, http_unknown, HttpRequest}
use cserv.Http.Method.{get_request_method}
use cserv.Http.Method.Names.{method_name}
use cserv.Http.Line.State.{
  LineState, s_start, s_method, s_spaces_before_uri, s_after_slash_in_uri, s_check_uri,
  s_check_uri_http_09, s_uri, s_http_09, s_http_h, s_http_ht, s_http_htt, s_http_http,
  s_first_major_digit, s_major_digit, s_first_minor_digit, s_minor_digit, s_almost_done, LineStep,
  next, done, fail, next_is, done_is, fail_is, step-cases,
}
use cserv.Http.Line.Target.{is_unknown, line_start, line_method, line_spaces_before_uri}
use cserv.Http.Line.Path.{
  is_usual, line_after_slash_in_uri, line_check_uri, line_check_uri_http_09, line_uri, line_http_09,
}
use cserv.Http.Line.Version.{
  line_http_h, line_http_ht, line_http_htt, line_http_http, line_first_major_digit,
  line_major_digit, line_first_minor_digit, line_minor_digit, line_almost_done,
}
use cserv.Http.Line.Loop.{line_step, line_done, line_loop, line_loop-next, line_loop-done}

-- a byte of a target: no space, CR, LF or NUL
abbrev pub Plain : ℕ → Type 0
Plain c = (c ≢ b' ') × (c ≢ cr) × (c ≢ lf) × (c ≢ 0)

abbrev pub AllPlain : List ℕ → Type 0
AllPlain [] = Unit
AllPlain (c ∷ cs) = Plain c × AllPlain cs

-- the states that read a path
abbrev pub InPath : LineState → Type 0
InPath s_after_slash_in_uri = Unit
InPath s_check_uri = Unit
InPath s_uri = Unit
InPath _ = ⊥

-- what the bytes of a path leave alone
pub record Agree (r r' : HttpRequest) : Type 0 where
  pub header : r'.header ≡ r.header
  pub line : r'.request_line ≡ r.request_line
  pub name : r'.method_name ≡ r.method_name
  pub method : r'.method ≡ r.method
  pub uri : r'.uri ≡ r.uri
  pub protocol : r'.http_protocol ≡ r.http_protocol

Agree-trans : {r s t : HttpRequest} → Agree r s → Agree s t → Agree r t
Agree-trans a b = record {
  header = b.header ∙ a.header;
  line = b.line ∙ a.line;
  name = b.name ∙ a.name;
  method = b.method ∙ a.method;
  uri = b.uri ∙ a.uri;
  protocol = b.protocol ∙ a.protocol;
}

abbrev PathStep : HttpRequest → LineStep → Type 0
PathStep r (next s r') = InPath s × Agree r r'
PathStep r (done r') = ⊥
PathStep r (fail n) = ⊥

not_usual : (c : ℕ) → is_usual c ≡ true → (c ≢ b' ') × (c ≢ cr) × (c ≢ lf) × (c ≢ 0)
unfolding is_usual
not_usual c h = (λ e. cc (rw e at h), λ e. cc (rw e at h), λ e. cc (rw e at h), λ e. cc (rw e at h))

path_step :
    (mem : List ℕ) (s : LineState) (r : HttpRequest) (i c : ℕ)
    → InPath s
    → Plain c
    → PathStep r (line_step mem s r i c)
unfolding line_step line_after_slash_in_uri line_check_uri line_uri
path_step mem s_after_slash_in_uri r i c p h = ground arith
path_step mem s_check_uri r i c p h = ground arith
path_step mem s_uri r i c p h = ground arith
path_step mem s_start r i c p h = absurd p
path_step mem _ r i c p h = absurd p

-- The path is read up to its end, and nothing that matters is changed.
pub path_loop :
    (mem : List ℕ) (s : LineState) (r : HttpRequest) (i : ℕ) (body tail : List ℕ)
    → InPath s
    → AllPlain body
    → (s' : LineState) × (r' : HttpRequest) × InPath s'
      × Agree r r'
      × (line_loop mem s r i (body ++ tail) ≡ line_loop mem s' r' (i + length body) tail)
path_loop mem s r i [] tail p h = (
  s,
  r,
  p,
  record { header = refl; line = refl; name = refl; method = refl; uri = refl; protocol = refl },
  ap (λ n. line_loop mem s r n tail) (omega arith),
)
path_loop mem s r i (c ∷ body) tail p h = elim (step-cases (line_step mem s r i c)) [
  | next_is s1 r1 e ↦
      let (p1, a1) = rw e at (path_step mem s r i c p h.0) in
      let (s', r', p', a', run) = path_loop mem s1 r1 (i + 1) body tail p1 h.1 in
      (
        s',
        r',
        p',
        Agree-trans a1 a',
        line_loop-next mem (body ++ tail) s r i c e
            ∙ run
            ∙ ap (λ n. line_loop mem s' r' n tail) (omega arith),
      )
  | done_is r1 e ↦ absurd (rw e at (path_step mem s r i c p h.0))
  | fail_is n e ↦ absurd (rw e at (path_step mem s r i c p h.0))
]

-- the bytes of a method's name
abbrev pub AllNamed : List ℕ → Type 0
AllNamed [] = Unit
AllNamed (c ∷ cs) = (leb b'A' c ≡ true) × (leb c b'Z' ≡ true) × AllNamed cs

method_loop :
    (mem : List ℕ) (r : HttpRequest) (i : ℕ) (w tail : List ℕ)
    → AllNamed w
    → line_loop mem s_method r i (w ++ tail) ≡ line_loop mem s_method r (i + length w) tail
method_loop mem r i [] tail h = ap (λ n. line_loop mem s_method r n tail) (omega arith)
method_loop mem r i (c ∷ w) tail h =
    line_loop-next mem (w ++ tail) s_method r i c {s' = s_method} {r' = r}
      (unfold line_step line_method in ground arith)
    ∙ method_loop mem r (i + 1) w tail h.2
    ∙ ap (λ n. line_loop mem s_method r n tail) (omega arith)

pub record MethodName (m : HttpMethod) : Type 0 where
  pub first : ℕ
  pub later : List ℕ
  pub spelled : method_name m ≡ first ∷ later
  pub letters : AllNamed (first ∷ later)
  pub known : is_unknown m ≡ false

pub name_of : (m : HttpMethod) → m ≢ http_unknown → MethodName m
name_of http_unknown h = absurd (h refl)
name_of _ h = record { first = _; later = _; spelled = refl; letters = ground arith; known = refl }

module _ (mem : List ℕ) (m : HttpMethod) (r : HttpRequest) (i c : ℕ) (cs tail : List ℕ)
    (letters : AllNamed (c ∷ cs)) (known : is_unknown m ≡ false)
    (slice : get_request_method (str_bytes mem (record { p = some i; len = suc (length cs) }))
      ≡ m) where
  abbrev after_first : HttpRequest
  after_first = record r {
    request_line = record { p = some i; len = r.request_line.len };
    method_name = record { p = some i; len = r.method_name.len };
  }

  abbrev after_method : HttpRequest
  after_method = record after_first {
    method_name = record { p = some i; len = i + 1 + length cs - i };
    method = m;
  }

  abbrev pub after_slash : HttpRequest
  after_slash = record after_method {
    uri = record { p = some (i + 1 + length cs + 1); len = r.uri.len };
    schema = str_init;
    host = str_init;
    port = str_init;
  }

  space_step :
      line_step mem s_method after_first (i + 1 + length cs) b' '
      ≡ next s_spaces_before_uri after_method
  unfolding line_step line_method
  space_step =
      let len : i + 1 + length cs - i ≡ suc (length cs) = omega arith in
      let got : get_request_method
            (str_bytes mem (record { p = some i; len = i + 1 + length cs - i }))
          ≡ m =
        ap (λ n. get_request_method (str_bytes mem (record { p = some i; len = n }))) len ∙ slice in
      ground (arith, got, known)

  pub method_part :
      line_loop mem s_start r i (c ∷ cs ++ b' ' ∷ b'/' ∷ tail)
      ≡ line_loop mem s_after_slash_in_uri after_slash (i + 1 + length cs + 1 + 1) tail
  method_part =
      line_loop-next mem (cs ++ b' ' ∷ b'/' ∷ tail) s_start r i c {s' = s_method} {r' = after_first}
        (unfold line_step line_start in ground arith)
      ∙ method_loop mem after_first (i + 1) cs (b' ' ∷ b'/' ∷ tail) letters.2
      ∙ line_loop-next mem (b'/' ∷ tail) s_method after_first (i + 1 + length cs) b' ' space_step
      ∙ line_loop-next mem tail s_spaces_before_uri after_method (i + 1 + length cs + 1) b'/'
          {s' = s_after_slash_in_uri} {r' = after_slash}
          (unfold line_step line_spaces_before_uri in refl)

module _ (mem : List ℕ) (r : HttpRequest) (i : ℕ) (tail : List ℕ) where
  abbrev pub after_uri : HttpRequest
  after_uri = record r {
    uri = record { p = r.uri.p; len = i - addr r.uri.p };
    http_protocol = record { p = some (i + 1); len = r.http_protocol.len };
  }

  pub path_end :
      (s : LineState)
      → InPath s
      → line_loop mem s r i (b' ' ∷ b'H' ∷ tail) ≡ line_loop mem s_http_h after_uri (i + 1 + 1) tail
  unfolding line_step line_after_slash_in_uri line_check_uri line_uri line_check_uri_http_09
      line_http_09 is_usual
  path_end s_after_slash_in_uri h =
      line_loop-next mem (b'H' ∷ tail) s_after_slash_in_uri r i b' ' refl
      ∙ line_loop-next mem tail s_check_uri_http_09 _ (i + 1) b'H' refl
  path_end s_check_uri h =
      line_loop-next mem (b'H' ∷ tail) s_check_uri r i b' ' refl
      ∙ line_loop-next mem tail s_check_uri_http_09 _ (i + 1) b'H' refl
  path_end s_uri h =
      line_loop-next mem (b'H' ∷ tail) s_uri r i b' ' refl
      ∙ line_loop-next mem tail s_http_09 _ (i + 1) b'H' refl
  path_end s_start h = absurd h
  path_end _ h = absurd h

module _ (mem : List ℕ) (r : HttpRequest) (i x y : ℕ) (rest : List ℕ) (x_low : 1 ≤ x)
    (x_high : x ≤ 9) (y_high : y ≤ 9) where
  abbrev versioned : HttpRequest
  versioned = record r { http_major = x; http_minor = y }

  abbrev pub ended : HttpRequest
  ended = record versioned {
    http_protocol = record {
      p = r.http_protocol.p;
      len = i + 1 + 1 + 1 + 1 + 1 + 1 + 1 - addr r.http_protocol.p;
    };
    request_line = record {
      p = r.request_line.p;
      len = i + 1 + 1 + 1 + 1 + 1 + 1 + 1 + 1 - addr r.request_line.p - 1;
    };
  }

  major_step :
      line_step mem s_first_major_digit r (i + 1 + 1 + 1 + 1) (b'0' + x)
      ≡ next s_major_digit (record r { http_major = x })
  unfolding line_step line_first_major_digit
  major_step = ground arith

  minor_step :
      (t : HttpRequest) (j : ℕ)
      → line_step mem s_first_minor_digit t j (b'0' + y)
        ≡ next s_minor_digit (record t { http_minor = y })
  unfolding line_step line_first_minor_digit
  minor_step t j = ground arith

  pub version_part :
      line_loop mem s_http_h r i
        (b'T' ∷ b'T' ∷ b'P' ∷ b'/' ∷ (b'0' + x) ∷ b'.' ∷ (b'0' + y) ∷ cr ∷ lf ∷ rest)
      ≡ line_done ended (i + 1 + 1 + 1 + 1 + 1 + 1 + 1 + 1)
  unfolding line_step line_http_h line_http_ht line_http_htt line_http_http line_major_digit
      line_minor_digit line_almost_done
  version_part =
      line_loop-next mem _ s_http_h r i b'T' refl
      ∙ line_loop-next mem _ s_http_ht r (i + 1) b'T' refl
      ∙ line_loop-next mem _ s_http_htt r (i + 1 + 1) b'P' refl
      ∙ line_loop-next mem _ s_http_http r (i + 1 + 1 + 1) b'/' refl
      ∙ line_loop-next mem _ s_first_major_digit r (i + 1 + 1 + 1 + 1) (b'0' + x) major_step
      ∙ line_loop-next mem _ s_major_digit _ (i + 1 + 1 + 1 + 1 + 1) b'.' refl
      ∙ line_loop-next mem _ s_first_minor_digit _ (i + 1 + 1 + 1 + 1 + 1 + 1) (b'0' + y)
          (minor_step _ (i + 1 + 1 + 1 + 1 + 1 + 1))
      ∙ line_loop-next mem _ s_minor_digit _ (i + 1 + 1 + 1 + 1 + 1 + 1 + 1) cr refl
      ∙ line_loop-done mem _ s_almost_done _ (i + 1 + 1 + 1 + 1 + 1 + 1 + 1 + 1) lf refl
