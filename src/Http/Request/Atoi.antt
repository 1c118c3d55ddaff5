-- ===== src/Http/Request/Atoi.antt =====
-- `str_atoi` of src/util/str.h and `http_process_content_length` of src/http/request.c. An `int` is
-- its bit pattern of 32 bits; where C leaves the overflow of a sum open, it wraps around here.
use cserv.Prelude.{
  ℕ, ◌+◌, ◌-◌, ◌*◌, ◌%◌, ◌^◌, Bool, List, [], ◌∷◌, ◌&&◌, ◌||◌, leb, ◌==◌, if◌then◌else◌,
}
use cserv.Http.Types.{str_bytes, HttpRequest}

-- the loop, with `val`, over the bytes that are left
unfoldable pub atoi_loop : ℕ → List ℕ → ℕ
atoi_loop val [] = val
atoi_loop val (c ∷ rest) =
    let later = atoi_loop ((10 * val + (c - b'0')) % 2 ^ 32) rest in
    if leb b'0' c && leb c b'9' then later else val

unfoldable pub str_atoi : List ℕ → ℕ
unfolding atoi_loop
str_atoi s = atoi_loop 0 s

-- `n <= 0` for an `int`
abbrev pub not_positive : ℕ → Bool
not_positive n = n == 0 || leb (2 ^ 31) n

-- what a header's handler returns, 0 or an error, and the request that it leaves
pub data Handled : Type 0 where
  handled : HttpRequest → Handled
  refused : Handled

unfoldable pub http_process_content_length : HttpRequest → Handled
http_process_content_length r =
    let n = str_atoi (str_bytes r.header.mem r.header_value) in
    if not_positive n then refused else handled (record r { content_len = n })
