-- ===== src/Http/Line/Path.antt =====
-- The cases of the switch in `http_parse_request_line` (src/http/parse.c) that read the path:
-- `S_after_slash_in_uri`, `S_check_uri`, `S_check_uri_http_09`, `S_uri` and `S_http_09`, with the
-- table `usual` that they test.
use cserv.Prelude.{
  ℕ, ◌+◌, ◌-◌, ◌/◌, ◌%◌, ◌^◌, Bool, List, [], ◌∷◌, some, ◌==◌, if◌then◌else◌, get_or,
}
use cserv.Http.Types.{addr, str_init, cr, lf, HttpRequest}
use cserv.Http.Line.State.{
  s_after_slash_in_uri, s_check_uri, s_check_uri_http_09, s_uri, s_http_09, s_almost_done, LineStep,
  next, fail,
}
use cserv.Http.Line.Target.{end_line, before_version}

abbrev pub usual : List ℕ
usual =
    0xffffdbfe ∷ 0x7fff37d6 ∷ 0xffffffff ∷ 0xffffffff ∷ 0xffffffff ∷ 0xffffffff ∷ 0xffffffff
    ∷ 0xffffffff ∷ []

-- `usual[ch >> 5] & (1 << (ch & 0x1f))`
unfoldable pub is_usual : ℕ → Bool
is_usual ch = get_or usual (ch / 2 ^ 5) 0 / 2 ^ (ch % 2 ^ 5) % 2 == 1

-- `r->uri.len = p - r->uri.p`
abbrev pub end_uri : HttpRequest → ℕ → HttpRequest
end_uri r i = record r { uri = record { p = r.uri.p; len = i - addr r.uri.p } }

abbrev complex : HttpRequest → LineStep
complex r = next s_uri (record r { complex_uri = 1 })

unfoldable pub line_after_slash_in_uri : HttpRequest → ℕ → ℕ → LineStep
line_after_slash_in_uri r i ch =
    if is_usual ch
    then next s_check_uri r
    else if ch == b' '
    then next s_check_uri_http_09 (end_uri r i)
    else if ch == cr
    then next s_almost_done (record (end_uri r i) { http_minor = 9 })
    else if ch == lf
    then end_line (record (end_uri r i) { http_minor = 9 }) i
    else if ch == b'.'
    then complex r
    else if ch == b'%'
    then next s_uri (record r { quoted_uri = 1 })
    else if ch == b'/'
    then complex r
    else if ch == b'?'
    then next s_uri (record r { args = some (i + 1) })
    else if ch == b'#'
    then complex r
    else if ch == b'+'
    then next s_after_slash_in_uri (record r { plus_in_uri = 1 })
    else if ch == 0
    then fail 12
    else next s_check_uri r

unfoldable pub line_check_uri : HttpRequest → ℕ → ℕ → LineStep
line_check_uri r i ch =
    if is_usual ch
    then next s_check_uri r
    else if ch == b'/'
    then next s_after_slash_in_uri (record r { exten = str_init })
    else if ch == b'.'
    then next s_check_uri (record r { exten = record { p = some (i + 1); len = r.exten.len } })
    else if ch == b' '
    then next s_check_uri_http_09 (end_uri r i)
    else if ch == cr
    then next s_almost_done (record (end_uri r i) { http_minor = 9 })
    else if ch == lf
    then end_line (record (end_uri r i) { http_minor = 9 }) i
    else if ch == b'%'
    then next s_uri (record r { quoted_uri = 1 })
    else if ch == b'?'
    then next s_uri (record r { args = some (i + 1) })
    else if ch == b'#'
    then complex r
    else if ch == b'+'
    then next s_check_uri (record r { plus_in_uri = 1 })
    else if ch == 0
    then fail 13
    else next s_check_uri r

unfoldable pub line_uri : HttpRequest → ℕ → ℕ → LineStep
line_uri r i ch =
    if is_usual ch
    then next s_uri r
    else if ch == b' '
    then next s_http_09 (end_uri r i)
    else if ch == cr
    then next s_almost_done (record (end_uri r i) { http_minor = 9 })
    else if ch == lf
    then end_line (record (end_uri r i) { http_minor = 9 }) i
    else if ch == b'#'
    then complex r
    else if ch == 0
    then fail 14
    else next s_uri r

-- The default case sets the state and does `p--`: the next round reads the same byte in the state
-- `S_check_uri`. So too below, in `S_uri`.
unfoldable pub line_check_uri_http_09 : HttpRequest → ℕ → ℕ → LineStep
line_check_uri_http_09 r i ch =
    before_version r i ch (next s_check_uri_http_09 r)
      (line_check_uri (record r { space_in_uri = 1 }) i ch)

unfoldable pub line_http_09 : HttpRequest → ℕ → ℕ → LineStep
line_http_09 r i ch =
    before_version r i ch (next s_http_09 r) (line_uri (record r { space_in_uri = 1 }) i ch)
