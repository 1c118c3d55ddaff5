-- ===== src/Http/Line/Bounds.antt =====
-- Where the strings that `http_parse_request_line` records lie: inside the bytes read so far.
use mathlib.Core.Path.{subst}
use native.Mathlib.Nat.{add-zero}
use cserv.Prelude.{ℕ, ◌+◌, ◌≤◌, ◌≡◌, refl, none, List, [], ◌∷◌, arith, length, length-drop, drop}
use cserv.Http.Types.{Buffer, last, Str, addr, HttpRequest}
use cserv.Http.Line.State.{
  LineState, s_start, s_method, s_spaces_before_uri, s_schema, s_schema_slash, s_schema_slash_slash,
  s_host_start, s_host, s_host_end, s_host_ip_literal, s_port, s_host_http_09, s_after_slash_in_uri,
  s_check_uri, s_check_uri_http_09, s_uri, s_http_09, s_spaces_after_digit, s_almost_done, LineStep,
  next, done, fail, line_code, next_is, done_is, fail_is, step-cases,
}
use cserv.Http.Line.Target.{
  line_start, line_method, line_spaces_before_uri, line_schema, line_schema_slash,
  line_schema_slash_slash, line_host_start, line_host, line_host_end, line_host_ip_literal,
  line_port, line_host_http_09,
}
use cserv.Http.Line.Path.{
  line_after_slash_in_uri, line_check_uri, line_check_uri_http_09, line_uri, line_http_09,
}
use cserv.Http.Line.Version.{
  line_http_h, line_http_ht, line_http_htt, line_http_http, line_first_major_digit,
  line_major_digit, line_first_minor_digit, line_minor_digit, line_spaces_after_digit,
  line_almost_done,
}
use cserv.Http.Line.Loop.{
  line_step, LineResult, complete, more, error, line_done, line_loop, line_loop-nil, line_loop-next,
  line_loop-done, line_loop-fail, http_parse_request_line, parse-line_loop,
}

-- the string starts at or before the offset `i`
abbrev pub Begun : Str → ℕ → Type 0
Begun s i = addr s.p ≤ i

-- the string ends at or before the offset `i`
abbrev pub Within : Str → ℕ → Type 0
Within s i = addr s.p + s.len ≤ i

-- as `http_request_handler` leaves them, until the path is read
abbrev pub Unread : HttpRequest → Type 0
Unread r = (r.exten.p ≡ none) × (r.exten.len ≡ 0) × (addr r.args ≡ 0) × Within r.http_protocol 0

abbrev Named : HttpRequest → ℕ → Type 0
Named r i = Begun r.request_line i × Within r.method_name i

-- with `k` bytes after the schema
abbrev Schemed : HttpRequest → ℕ → ℕ → Type 0
Schemed r k i = Named r i × Unread r × (addr r.schema.p + r.schema.len + k ≤ i)

abbrev Hosted : HttpRequest → ℕ → Type 0
Hosted r i = Named r i × Within r.schema i × Within r.host i × Within r.port i

abbrev InPath : HttpRequest → ℕ → Type 0
InPath r i =
    Hosted r i
    × Begun r.uri i
    × Begun r.exten i
    × (r.exten.len ≡ 0)
    × (addr r.args ≤ i)
    × Within r.http_protocol 0

-- the URI has ended, and holds its extension
abbrev AfterUri : HttpRequest → ℕ → Type 0
AfterUri r i =
    Hosted r i
    × Within r.uri i
    × (addr r.exten.p ≤ addr r.uri.p + r.uri.len)
    × (r.exten.len ≡ 0)
    × (addr r.args ≤ i)

abbrev InVersion : HttpRequest → ℕ → Type 0
InVersion r i = AfterUri r i × Begun r.http_protocol i

abbrev pub Inv : LineState → HttpRequest → ℕ → Type 0
Inv s_start r i = Unread r
Inv s_method r i = Begun r.request_line i × Begun r.method_name i × Unread r
Inv s_spaces_before_uri r i = Named r i × Unread r
Inv s_schema r i = Named r i × Unread r × Begun r.schema i
Inv s_schema_slash r i = Schemed r 1 i
Inv s_schema_slash_slash r i = Schemed r 2 i
Inv s_host_start r i = Schemed r 3 i
Inv s_host r i = Schemed r 3 i × Begun r.host i
Inv s_host_end r i = Schemed r 3 i × Begun r.host i
Inv s_host_ip_literal r i = Schemed r 3 i × Begun r.host i
Inv s_port r i = Schemed r 3 i × Within r.host i × Begun r.port i
Inv s_host_http_09 r i = AfterUri r i × Within r.http_protocol 0
Inv s_after_slash_in_uri r i = InPath r i
Inv s_check_uri r i = InPath r i
Inv s_check_uri_http_09 r i = InPath r i × AfterUri r i
Inv s_uri r i = InPath r i
Inv s_http_09 r i = InPath r i × AfterUri r i
Inv s_spaces_after_digit r i = AfterUri r i × Within r.http_protocol i
Inv s_almost_done r i = AfterUri r i × Within r.http_protocol i × (addr r.request_line.p + 1 ≤ i)
Inv _ r i = InVersion r i

abbrev Ended : HttpRequest → ℕ → Type 0
Ended r i = AfterUri r i × Within r.http_protocol i × Within r.request_line i

abbrev StepInv : ℕ → LineStep → Type 0
StepInv i (next s r) = Inv s r (i + 1)
StepInv i (done r) = Ended r i
StepInv i (fail n) = Unit {0}

pub line_step-Inv :
    (mem : List ℕ) (s : LineState) (r : HttpRequest) (i ch : ℕ)
    → Inv s r i
    → StepInv i (line_step mem s r i ch)
unfolding line_step line_start line_method line_spaces_before_uri line_schema line_schema_slash
    line_schema_slash_slash line_host_start line_host line_host_end line_host_ip_literal line_port
    line_host_http_09 line_after_slash_in_uri line_check_uri line_check_uri_http_09 line_uri
    line_http_09 line_http_h line_http_ht line_http_htt line_http_http line_first_major_digit
    line_major_digit line_first_minor_digit line_minor_digit line_spaces_after_digit
    line_almost_done
line_step-Inv mem s_start r i ch h = ground arith
line_step-Inv mem _ r i ch h = ground arith

-- Every string of the request lies below the offset `n`, the extension inside the URI.
pub record Parsed (r : HttpRequest) (n : ℕ) : Type 0 where
  pub line : Within r.request_line n
  pub name : Within r.method_name n
  pub schema : Within r.schema n
  pub host : Within r.host n
  pub port : Within r.port n
  pub uri : Within r.uri n
  pub args : addr r.args ≤ n
  pub exten : addr r.exten.p + r.exten.len ≤ addr r.uri.p + r.uri.len
  pub protocol : Within r.http_protocol n

abbrev pub ResultInv : ℕ → LineResult → Type 0
ResultInv n (complete r) = (r.header.pos ≤ n) × Parsed r r.header.pos
ResultInv n (more r) = (r.header.pos ≡ n) × ((s : LineState) × (r.state ≡ line_code s) × Inv s r n)
ResultInv n (error e) = Unit {0}

line_done-Parsed : (r : HttpRequest) (i n : ℕ) → i + 1 ≤ n → Ended r i → ResultInv n (line_done r i)
unfolding line_done
line_done-Parsed r i n le h = ground arith

-- The claims say nothing of the buffer and of the stored state.
pub Inv-stored :
    (s : LineState) (r : HttpRequest) (i k : ℕ) (b : Buffer)
    → Inv s r i
    → Inv s (record r { header = b; state = k }) i
Inv-stored s_start r i k b h = h
Inv-stored _ r i k b h = h

line_loop-Inv :
    (mem rest : List ℕ) (s : LineState) (r : HttpRequest) (i : ℕ)
    → Inv s r i
    → ResultInv (i + length rest) (line_loop mem s r i rest)
line_loop-Inv mem [] s r i h =
    rw (line_loop-nil mem s r i, add-zero) (refl, (s, refl, Inv-stored s r i _ _ h))
line_loop-Inv mem (ch ∷ rest) s r i h = elim (step-cases (line_step mem s r i ch)) [
  | next_is s' r' e ↦ rw (line_loop-next mem rest s r i ch e) (
      subst (λ n. ResultInv n (line_loop mem s' r' (i + 1) rest)) (omega arith)
        (line_loop-Inv mem rest s' r' (i + 1) (rw e at (line_step-Inv mem s r i ch h))))
  | done_is r' e ↦
      rw (line_loop-done mem rest s r i ch e)
        (line_done-Parsed r' i _ (omega arith) (rw e at (line_step-Inv mem s r i ch h)))
  | fail_is n e ↦ rw (line_loop-fail mem rest s r i ch e) tt
]

-- `http_parse_request_line`, started in a state whose claims hold, moves `pos` no further than
-- `last`. When it reports a complete line, each string that it has recorded lies in front of the
-- new `pos`, and the extension inside the URI; when it asks for more, `pos` is `last` and the
-- stored state is one from which it can go on with the same guarantee.
pub http_parse_request_line-Parsed :
    (s : LineState) (r : HttpRequest)
    → r.state ≡ line_code s
    → r.header.pos ≤ last r.header
    → Inv s r r.header.pos
    → ResultInv (last r.header) (http_parse_request_line r)
http_parse_request_line-Parsed s r st le h = rw (parse-line_loop s r st) (
    subst
      (λ n. ResultInv n (line_loop r.header.mem s r r.header.pos (drop r.header.pos r.header.mem)))
      (omega (arith, length-drop r.header.pos r.header.mem))
      (line_loop-Inv r.header.mem (drop r.header.pos r.header.mem) s r r.header.pos h))
