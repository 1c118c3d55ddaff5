-- ===== src/Http/Header/State.antt =====
-- The states of `http_parse_request_header` (src/http/parse.c), its table `lowcase`, and the hash
-- macro of src/util/hashtable.h.
use cserv.Prelude.{
  ℕ, ◌≡◌, refl, some, ◌+◌, ◌*◌, ◌%◌, ◌^◌, Option, List, [], ◌∷◌, get_elem?, leb, ◌&&◌, ◌==◌,
  if◌then◌else◌,
}
use cserv.Http.Types.{HttpRequest}

pub data HeaderState : Type 0 where
  s_start s_name s_space_before_value s_value s_space_after_value : HeaderState
  s_almost_done s_header_almost_done : HeaderState

abbrev header_states : List HeaderState
header_states =
    s_start ∷ s_name ∷ s_space_before_value ∷ s_value ∷ s_space_after_value ∷ s_almost_done
    ∷ s_header_almost_done ∷ []

-- the case of the switch that an `int` selects, if any
unfoldable pub header_state : ℕ → Option HeaderState
header_state n = get_elem? header_states n

unfoldable pub header_code : HeaderState → ℕ
header_code s_start = 0
header_code s_name = 1
header_code s_space_before_value = 2
header_code s_value = 3
header_code s_space_after_value = 4
header_code s_almost_done = 5
header_code s_header_almost_done = 6

-- `((unsigned) key * 31 + c)`, on 32 bits
unfoldable pub hash_step : ℕ → ℕ → ℕ
hash_step key c = (key * 31 + c) % 2 ^ 32

-- `HTTP_LC_HEADER_LEN`
abbrev pub lc_header_len : ℕ
lc_header_len = 32

-- the table `lowcase`: 0 stands for every byte that is no letter, digit or dash
unfoldable pub lowcase : ℕ → ℕ
lowcase ch =
    if ch == b'-'
    then b'-'
    else if leb b'0' ch && leb ch b'9'
    then ch
    else if leb b'A' ch && leb ch b'Z'
    then ch + 32
    else if leb b'a' ch && leb ch b'z'
    then ch
    else 0

-- the local variables that the loop changes beside the request
pub record Locals : Type 0 where
  pub hash : ℕ
  pub i : ℕ

-- One round: on to the next byte, `goto done`, `goto header_done`, or `return -n` (what a failing
-- round wrote is not kept, since the caller uses nothing of it).
pub data HeaderStep : Type 0 where
  next : HeaderState → HttpRequest → Locals → HeaderStep
  done : HttpRequest → Locals → HeaderStep
  header_done : HttpRequest → HeaderStep
  fail : ℕ → HeaderStep

pub header_state-code : (s : HeaderState) → header_state (header_code s) ≡ some s
unfolding header_state header_code
header_state-code s_start = refl
header_state-code _ = refl
