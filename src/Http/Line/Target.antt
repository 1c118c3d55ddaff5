-- ===== src/Http/Line/Target.antt =====
-- The cases of the switch in `http_parse_request_line` (src/http/parse.c) from `S_start` to
-- `S_host_http_09`: the method, and the part of the target in front of the path. `i` is `p`, the
-- offset of the byte `ch`; `mem` are the bytes of the buffer.
use Prim.Native.Nat.{bit_or}
use cserv.Prelude.{ℕ, ◌+◌, ◌-◌, Bool, not, ◌&&◌, ◌||◌, List, some, ltb, leb, ◌==◌, if◌then◌else◌}
use cserv.Http.Types.{Str, addr, str_init, str_bytes, cr, lf, HttpMethod, http_unknown, HttpRequest}
use cserv.Http.Method.{get_request_method}
use cserv.Http.Line.State.{
  s_method, s_spaces_before_uri, s_schema, s_schema_slash, s_schema_slash_slash, s_host_start,
  s_host, s_host_end, s_host_ip_literal, s_port, s_host_http_09, s_after_slash_in_uri, s_start,
  s_http_h, s_almost_done, LineStep, next, done, fail,
}

-- `ch < 'A' || ch > 'Z') && ch != '_'`
abbrev pub not_method_byte : ℕ → Bool
not_method_byte ch = (ltb ch b'A' || ltb b'Z' ch) && not (ch == b'_')

abbrev pub is_digit : ℕ → Bool
is_digit ch = leb b'0' ch && leb ch b'9'

-- `c = ch | 0x20; c >= 'a' && c <= 'z'`
abbrev pub is_letter : ℕ → Bool
is_letter ch = let c = bit_or ch 0x20 in leb b'a' c && leb c b'z'

abbrev pub is_unknown : HttpMethod → Bool
is_unknown http_unknown = Bool.true
is_unknown _ = Bool.false

unfoldable pub line_start : HttpRequest → ℕ → ℕ → LineStep
line_start r i ch =
    let r1 = record r { request_line = record { p = some i; len = r.request_line.len } } in
    if ch == cr || ch == lf
    then next s_start r1
    else if not_method_byte ch
    then fail 1
    else next s_method (record r1 { method_name = record { p = some i; len = r.method_name.len } })

unfoldable pub line_method : List ℕ → HttpRequest → ℕ → ℕ → LineStep
line_method mem r i ch =
    let name : Str = record { p = r.method_name.p; len = i - addr r.method_name.p } in
    let m = get_request_method (str_bytes mem name) in
    if ch == b' '
    then if is_unknown m
      then fail 2
      else next s_spaces_before_uri (record r { method_name = name; method = m })
    else if not_method_byte ch
    then fail 3
    else next s_method r

unfoldable pub line_spaces_before_uri : HttpRequest → ℕ → ℕ → LineStep
line_spaces_before_uri r i ch =
    if ch == b'/'
    then next s_after_slash_in_uri (record r {
      uri = record { p = some i; len = r.uri.len };
      schema = str_init;
      host = str_init;
      port = str_init;
    })
    else if is_letter ch
    then next s_schema (record r { schema = record { p = some i; len = r.schema.len } })
    else if ch == b' '
    then next s_spaces_before_uri r
    else fail 4

unfoldable pub line_schema : HttpRequest → ℕ → ℕ → LineStep
line_schema r i ch =
    if is_letter ch
    then next s_schema r
    else if ch == b':'
    then next s_schema_slash
        (record r { schema = record { p = r.schema.p; len = i - addr r.schema.p } })
    else fail 5

unfoldable pub line_schema_slash : HttpRequest → ℕ → LineStep
line_schema_slash r ch = if ch == b'/' then next s_schema_slash_slash r else fail 6

unfoldable pub line_schema_slash_slash : HttpRequest → ℕ → LineStep
line_schema_slash_slash r ch = if ch == b'/' then next s_host_start r else fail 7

-- `r->uri.p = r->schema.p + r->schema.len + 1; r->uri.len = 1`
abbrev slash_of_schema : HttpRequest → Str
slash_of_schema r = record { p = some (addr r.schema.p + r.schema.len + 1); len = 1 }

unfoldable pub line_host_end : HttpRequest → ℕ → ℕ → LineStep
line_host_end r i ch =
    let r1 = record r { host = record { p = r.host.p; len = i - addr r.host.p } } in
    if ch == b':'
    then next s_port (record r1 { port = record { p = some (i + 1); len = r.port.len } })
    else if ch == b'/'
    then next s_after_slash_in_uri
        (record r1 { port = str_init; uri = record { p = some i; len = r.uri.len } })
    else if ch == b' '
    then next s_host_http_09 (record r1 { port = str_init; uri = slash_of_schema r })
    else fail 8

-- falls through to `S_host_end`
unfoldable pub line_host : HttpRequest → ℕ → ℕ → LineStep
unfolding line_host_end
line_host r i ch =
    if is_letter ch
    then next s_host r
    else if is_digit ch || (ch == b'.' || ch == b'-')
    then next s_host r
    else line_host_end r i ch

-- falls through to `S_host`
unfoldable pub line_host_start : HttpRequest → ℕ → ℕ → LineStep
unfolding line_host
line_host_start r i ch =
    let r1 = record r { host = record { p = some i; len = r.host.len } } in
    if ch == b'[' then next s_host_ip_literal r1 else line_host r1 i ch

abbrev is_non_reserved : ℕ → Bool
is_non_reserved ch = ch == b'-' || (ch == b'.' || (ch == b'_' || ch == b'~'))

abbrev is_sub_delim : ℕ → Bool
is_sub_delim ch =
    ch == b'!'
    || (ch == b'$'
        || (ch == b'&'
            || (ch == b'\''
                || (ch == b'('
                    || (ch == b')'
                        || (ch == b'*'
                            || (ch == b'+' || (ch == b',' || (ch == b';' || ch == b'=')))))))))

unfoldable pub line_host_ip_literal : HttpRequest → ℕ → LineStep
line_host_ip_literal r ch =
    if is_digit ch
    then next s_host_ip_literal r
    else if is_letter ch
    then next s_host_ip_literal r
    else if ch == b':'
    then next s_host_ip_literal r
    else if ch == b']'
    then next s_host_end r
    else if is_non_reserved ch || is_sub_delim ch
    then next s_host_ip_literal r
    else fail 9

unfoldable pub line_port : HttpRequest → ℕ → ℕ → LineStep
line_port r i ch =
    let r1 = record r { port = record { p = r.port.p; len = i - addr r.port.p } } in
    if is_digit ch
    then next s_port r
    else if ch == b'/'
    then next s_after_slash_in_uri (record r1 { uri = record { p = some i; len = r.uri.len } })
    else if ch == b' '
    then next s_host_http_09 (record r1 { uri = slash_of_schema r })
    else fail 10

-- `r->request_line.len = p - r->request_line.p; goto done`
abbrev pub end_line : HttpRequest → ℕ → LineStep
end_line r i =
    done
      (record r { request_line = record { p = r.request_line.p; len = i - addr r.request_line.p } })

-- the cases ' ', CR, LF and 'H', which three states share; `other` is the default
abbrev pub before_version : HttpRequest → ℕ → ℕ → LineStep → LineStep → LineStep
before_version r i ch blank other =
    if ch == b' '
    then blank
    else if ch == cr
    then next s_almost_done (record r { http_minor = 9 })
    else if ch == lf
    then end_line (record r { http_minor = 9 }) i
    else if ch == b'H'
    then next s_http_h
        (record r { http_protocol = record { p = some i; len = r.http_protocol.len } })
    else other

unfoldable pub line_host_http_09 : HttpRequest → ℕ → ℕ → LineStep
line_host_http_09 r i ch = before_version r i ch (next s_host_http_09 r) (fail 11)
