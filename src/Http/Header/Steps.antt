-- ===== src/Http/Header/Steps.antt =====
-- The cases of the switch in `http_parse_request_header` (src/http/parse.c). `p` is the offset of
-- the byte `ch`.
use cserv.Prelude.{ℕ, ◌+◌, ◌-◌, ◌%◌, not, some, ◌==◌, if◌then◌else◌, set}
use cserv.Http.Types.{addr, str_init, cr, lf, HttpRequest}
use cserv.Http.Header.State.{
  HeaderState, s_start, s_name, s_space_before_value, s_value, s_space_after_value, s_almost_done,
  s_header_almost_done, hash_step, lc_header_len, lowcase, Locals, HeaderStep, next, done,
  header_done, fail,
}

-- `r->header_name.len = p - r->header_name.p`
abbrev pub end_name : HttpRequest → ℕ → HttpRequest
end_name r p = record r {
  header_name = record { p = r.header_name.p; len = p - addr r.header_name.p };
}

-- `r->header_value.len = p - r->header_value.p`
abbrev pub end_value : HttpRequest → ℕ → HttpRequest
end_value r p = record r {
  header_value = record { p = r.header_value.p; len = p - addr r.header_value.p };
}

abbrev pub no_value : HttpRequest → HttpRequest
no_value r = record r { header_value = str_init }

unfoldable pub header_start : HttpRequest → Locals → ℕ → ℕ → HeaderStep
header_start r0 l p ch =
    let r = record r0 {
      header_name = record { p = some p; len = r0.header_name.len };
      invalid_header = 0;
    } in
    let c = lowcase ch in
    if ch == cr
    then next s_header_almost_done (end_name r p) l
    else if ch == lf
    then header_done (end_name r p)
    else if not (c == 0)
    then next s_name (record r { lowcase_header = set r.lowcase_header 0 c })
        (record { hash = hash_step 0 c; i = 1 })
    else if ch == 0
    then fail 1
    else next s_name (record r { invalid_header = 1 }) l

-- `i &= HTTP_LC_HEADER_LEN - 1` is a remainder.
unfoldable pub header_name : HttpRequest → Locals → ℕ → ℕ → HeaderStep
header_name r l p ch =
    let c = lowcase ch in
    if not (c == 0)
    then next s_name (record r { lowcase_header = set r.lowcase_header l.i c })
        (record { hash = hash_step l.hash c; i = (l.i + 1) % lc_header_len })
    else if ch == b':'
    then next s_space_before_value (end_name r p) l
    else if ch == cr
    then next s_almost_done (no_value (end_name r p)) l
    else if ch == lf
    then done (no_value (end_name r p)) l
    else if ch == 0
    then fail 2
    else next s_name (record r { invalid_header = 1 }) l

unfoldable pub header_space_before_value : HttpRequest → Locals → ℕ → ℕ → HeaderStep
header_space_before_value r l p ch =
    if ch == b' '
    then next s_space_before_value r l
    else if ch == cr
    then next s_almost_done (no_value r) l
    else if ch == lf
    then done (no_value r) l
    else if ch == 0
    then fail 3
    else next s_value (record r { header_value = record { p = some p; len = r.header_value.len } })
        l

unfoldable pub header_value : HttpRequest → Locals → ℕ → ℕ → HeaderStep
header_value r l p ch =
    if ch == b' '
    then next s_space_after_value (end_value r p) l
    else if ch == cr
    then next s_almost_done (end_value r p) l
    else if ch == lf
    then done (end_value r p) l
    else if ch == 0
    then fail 4
    else next s_value r l

unfoldable pub header_space_after_value : HttpRequest → Locals → ℕ → HeaderStep
header_space_after_value r l ch =
    if ch == b' '
    then next s_space_after_value r l
    else if ch == cr
    then next s_almost_done r l
    else if ch == lf
    then done r l
    else if ch == 0
    then fail 5
    else next s_value r l

unfoldable pub header_almost_done : HttpRequest → Locals → ℕ → HeaderStep
header_almost_done r l ch =
    if ch == lf then done r l else if ch == cr then next s_almost_done r l else fail 6

unfoldable pub header_header_almost_done : HttpRequest → ℕ → HeaderStep
header_header_almost_done r ch = if ch == lf then header_done r else fail 7

-- the switch
unfoldable pub header_step : HeaderState → HttpRequest → Locals → ℕ → ℕ → HeaderStep
header_step s_start r l p ch = header_start r l p ch
header_step s_name r l p ch = header_name r l p ch
header_step s_space_before_value r l p ch = header_space_before_value r l p ch
header_step s_value r l p ch = header_value r l p ch
header_step s_space_after_value r l p ch = header_space_after_value r l ch
header_step s_almost_done r l p ch = header_almost_done r l ch
header_step s_header_almost_done r l p ch = header_header_almost_done r ch
