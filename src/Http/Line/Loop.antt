-- ===== src/Http/Line/Loop.antt =====
-- `http_parse_request_line` of src/http/parse.c: the switch, the loop over the bytes between `pos`
-- and `last`, and the code behind the loop.
use cserv.Prelude.{
  ℕ, ◌≡◌, refl, ap, ◌∙◌, arith, ◌+◌, ◌-◌, ◌*◌, Bool, not, ◌&&◌, none, some, List, [], ◌∷◌, ◌==◌,
  if◌then◌else◌, drop,
}
use cserv.Http.Types.{Str, Ptr, addr, last, HttpMethod, http_get, HttpRequest}
use cserv.Http.Line.State.{
  LineState, s_start, s_method, s_spaces_before_uri, s_schema, s_schema_slash, s_schema_slash_slash,
  s_host_start, s_host, s_host_end, s_host_ip_literal, s_port, s_host_http_09, s_after_slash_in_uri,
  s_check_uri, s_check_uri_http_09, s_uri, s_http_09, s_http_h, s_http_ht, s_http_htt, s_http_http,
  s_first_major_digit, s_major_digit, s_first_minor_digit, s_minor_digit, s_spaces_after_digit,
  s_almost_done, line_state, line_code, line_state-code, LineStep, next, done, fail,
}
use cserv.Http.Line.Target.{
  line_start, line_method, line_spaces_before_uri, line_schema, line_schema_slash,
  line_schema_slash_slash, line_host_start, line_host, line_host_end, line_host_ip_literal,
  line_port, line_host_http_09,
}
use cserv.Http.Line.Path.{
  line_after_slash_in_uri, line_check_uri, line_check_uri_http_09, line_uri, line_http_09,
}
use cserv.Http.Line.Version.{
  line_http_h, line_http_ht, line_http_htt, line_http_http, line_first_major_digit,
  line_major_digit, line_first_minor_digit, line_minor_digit, line_spaces_after_digit,
  line_almost_done,
}

-- the switch
unfoldable pub line_step : List ℕ → LineState → HttpRequest → ℕ → ℕ → LineStep
line_step mem s_start r i ch = line_start r i ch
line_step mem s_method r i ch = line_method mem r i ch
line_step mem s_spaces_before_uri r i ch = line_spaces_before_uri r i ch
line_step mem s_schema r i ch = line_schema r i ch
line_step mem s_schema_slash r i ch = line_schema_slash r ch
line_step mem s_schema_slash_slash r i ch = line_schema_slash_slash r ch
line_step mem s_host_start r i ch = line_host_start r i ch
line_step mem s_host r i ch = line_host r i ch
line_step mem s_host_end r i ch = line_host_end r i ch
line_step mem s_host_ip_literal r i ch = line_host_ip_literal r ch
line_step mem s_port r i ch = line_port r i ch
line_step mem s_host_http_09 r i ch = line_host_http_09 r i ch
line_step mem s_after_slash_in_uri r i ch = line_after_slash_in_uri r i ch
line_step mem s_check_uri r i ch = line_check_uri r i ch
line_step mem s_check_uri_http_09 r i ch = line_check_uri_http_09 r i ch
line_step mem s_uri r i ch = line_uri r i ch
line_step mem s_http_09 r i ch = line_http_09 r i ch
line_step mem s_http_h r i ch = line_http_h r ch
line_step mem s_http_ht r i ch = line_http_ht r ch
line_step mem s_http_htt r i ch = line_http_htt r ch
line_step mem s_http_http r i ch = line_http_http r ch
line_step mem s_first_major_digit r i ch = line_first_major_digit r ch
line_step mem s_major_digit r i ch = line_major_digit r ch
line_step mem s_first_minor_digit r i ch = line_first_minor_digit r ch
line_step mem s_minor_digit r i ch = line_minor_digit r i ch
line_step mem s_spaces_after_digit r i ch = line_spaces_after_digit r i ch
line_step mem s_almost_done r i ch = line_almost_done r i ch

-- the result 0, 1 or `-n`, with the request that the first two leave behind
pub data LineResult : Type 0 where
  complete : HttpRequest → LineResult
  more : HttpRequest → LineResult
  error : ℕ → LineResult

abbrev pub is_get : HttpMethod → Bool
is_get http_get = Bool.true
is_get _ = Bool.false

abbrev pub end_exten : Ptr → Str → Str → Str
end_exten none uri exten = exten
end_exten (some e) uri exten = record { p = some e; len = addr uri.p + uri.len - e }

-- the code behind the label `done`
unfoldable pub line_done : HttpRequest → ℕ → LineResult
line_done r i =
    let major = if r.http_minor == 9 then 0 else r.http_major in
    let version = major * 1000 + r.http_minor in
    if version == 9 && not (is_get r.method)
    then error 25
    else complete (record r {
      exten = end_exten r.exten.p r.uri r.exten;
      header = record r.header { pos = i + 1 };
      http_major = major;
      http_version = version;
      state = line_code s_start;
    })

-- the loop, from the byte at offset `i` on
unfoldable pub line_loop : List ℕ → LineState → HttpRequest → ℕ → List ℕ → LineResult
line_loop mem s r i [] =
    more (record r { header = record r.header { pos = i }; state = line_code s })
line_loop mem s r i (ch ∷ rest) = elim (line_step mem s r i ch) [
  | next s' r' ↦ line_loop mem s' r' (i + 1) rest
  | done r' ↦ line_done r' i
  | fail n ↦ error n
]

-- An `int` that is no enumerator selects no case, and every byte is passed over.
unfoldable pub http_parse_request_line : HttpRequest → LineResult
http_parse_request_line r =
    let b = r.header in
    elim (line_state r.state) [
      | none ↦ more (record r { header = record b { pos = last b } })
      | some s ↦ line_loop b.mem s r b.pos (drop b.pos b.mem)
    ]

module _ (mem rest : List ℕ) (s : LineState) (r : HttpRequest) (i ch : ℕ) where
  pub line_loop-next :
      {s' : LineState} {r' : HttpRequest}
      → line_step mem s r i ch ≡ next s' r'
      → line_loop mem s r i (ch ∷ rest) ≡ line_loop mem s' r' (i + 1) rest
  unfolding line_loop
  line_loop-next e = ground (arith, e)

  pub line_loop-done :
      {r' : HttpRequest}
      → line_step mem s r i ch ≡ done r'
      → line_loop mem s r i (ch ∷ rest) ≡ line_done r' i
  unfolding line_loop
  line_loop-done e = ground (arith, e)

  pub line_loop-fail :
      {n : ℕ} → line_step mem s r i ch ≡ fail n → line_loop mem s r i (ch ∷ rest) ≡ error n
  unfolding line_loop
  line_loop-fail e = ground (arith, e)

pub line_loop-nil :
    (mem : List ℕ) (s : LineState) (r : HttpRequest) (i : ℕ)
    → line_loop mem s r i []
      ≡ more (record r { header = record r.header { pos = i }; state = line_code s })
unfolding line_loop
line_loop-nil mem s r i = refl

pub parse-line_loop :
    (s : LineState) (r : HttpRequest)
    → r.state ≡ line_code s
    → http_parse_request_line r
      ≡ line_loop r.header.mem s r r.header.pos (drop r.header.pos r.header.mem)
unfolding http_parse_request_line line_state line_loop
parse-line_loop s r e =
    let known : line_state r.state ≡ some s = ap line_state e ∙ line_state-code s in simp known
