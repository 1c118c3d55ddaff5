-- ===== src/Http/Line/Version.antt =====
-- The cases of the switch in `http_parse_request_line` (src/http/parse.c) that read the protocol
-- version and the end of the line: `S_http_H` to `S_almost_done`.
use cserv.Prelude.{ℕ, ◌+◌, ◌-◌, ◌*◌, ◌%◌, ◌^◌, not, ltb, ◌==◌, ◌||◌, if◌then◌else◌}
use cserv.Http.Types.{addr, cr, lf, HttpRequest}
use cserv.Http.Line.State.{
  LineState, s_http_ht, s_http_htt, s_http_http, s_first_major_digit, s_major_digit,
  s_first_minor_digit, s_minor_digit, s_spaces_after_digit, s_almost_done, LineStep, next, done,
  fail,
}
use cserv.Http.Line.Target.{is_digit, end_line}

-- a state that takes one byte only
abbrev expect : ℕ → LineState → ℕ → HttpRequest → ℕ → LineStep
expect byte then_state code r ch = if ch == byte then next then_state r else fail code

unfoldable pub line_http_h : HttpRequest → ℕ → LineStep
line_http_h = expect b'T' s_http_ht 15

unfoldable pub line_http_ht : HttpRequest → ℕ → LineStep
line_http_ht = expect b'T' s_http_htt 16

unfoldable pub line_http_htt : HttpRequest → ℕ → LineStep
line_http_htt = expect b'P' s_http_http 17

unfoldable pub line_http_http : HttpRequest → ℕ → LineStep
line_http_http = expect b'/' s_first_major_digit 18

-- `http_major` and `http_minor` are bit fields of 16 bits.
abbrev pub u16 : ℕ → ℕ
u16 n = n % 2 ^ 16

unfoldable pub line_first_major_digit : HttpRequest → ℕ → LineStep
line_first_major_digit r ch =
    if ltb ch b'1' || ltb b'9' ch
    then fail 19
    else next s_major_digit (record r { http_major = u16 (ch - b'0') })

unfoldable pub line_major_digit : HttpRequest → ℕ → LineStep
line_major_digit r ch =
    if ch == b'.'
    then next s_first_minor_digit r
    else if not (is_digit ch)
    then fail 20
    else next s_major_digit (record r { http_major = u16 (r.http_major * 10 + ch - b'0') })

unfoldable pub line_first_minor_digit : HttpRequest → ℕ → LineStep
line_first_minor_digit r ch =
    if not (is_digit ch)
    then fail 21
    else next s_minor_digit (record r { http_minor = u16 (ch - b'0') })

-- `r->http_protocol.len = p - r->http_protocol.p`
abbrev end_protocol : HttpRequest → ℕ → HttpRequest
end_protocol r i = record r {
  http_protocol = record { p = r.http_protocol.p; len = i - addr r.http_protocol.p };
}

unfoldable pub line_minor_digit : HttpRequest → ℕ → ℕ → LineStep
line_minor_digit r i ch =
    if ch == cr
    then next s_almost_done (end_protocol r i)
    else if ch == lf
    then end_line (end_protocol r i) i
    else if ch == b' '
    then next s_spaces_after_digit (end_protocol r i)
    else if not (is_digit ch)
    then fail 22
    else next s_minor_digit (record r { http_minor = u16 (r.http_minor * 10 + ch - b'0') })

unfoldable pub line_spaces_after_digit : HttpRequest → ℕ → ℕ → LineStep
line_spaces_after_digit r i ch =
    if ch == b' '
    then next s_spaces_after_digit r
    else if ch == cr
    then next s_almost_done r
    else if ch == lf
    then end_line r i
    else fail 23

unfoldable pub line_almost_done : HttpRequest → ℕ → ℕ → LineStep
line_almost_done r i ch =
    if ch == lf
    then done (record r {
      request_line = record { p = r.request_line.p; len = i - addr r.request_line.p - 1 };
    })
    else fail 24
