-- ===== src/Http/Line/State.antt =====
-- `enum http_request_line_status`, and what one round of the loop can lead to.
use cserv.Prelude.{ℕ, ◌≡◌, refl, Option, some, List, [], ◌∷◌, get_elem?}
use cserv.Http.Types.{HttpRequest}

pub data LineState : Type 0 where
  s_start s_method s_spaces_before_uri s_schema s_schema_slash : LineState
  s_schema_slash_slash s_host_start s_host s_host_end s_host_ip_literal : LineState
  s_port s_host_http_09 s_after_slash_in_uri s_check_uri s_check_uri_http_09 : LineState
  s_uri s_http_09 s_http_h s_http_ht s_http_htt s_http_http s_first_major_digit : LineState
  s_major_digit s_first_minor_digit s_minor_digit s_spaces_after_digit : LineState
  s_almost_done : LineState

-- the enumerators in order, from 0 on
abbrev line_states : List LineState
line_states =
    s_start ∷ s_method ∷ s_spaces_before_uri ∷ s_schema ∷ s_schema_slash ∷ s_schema_slash_slash
    ∷ s_host_start ∷ s_host ∷ s_host_end ∷ s_host_ip_literal ∷ s_port ∷ s_host_http_09
    ∷ s_after_slash_in_uri ∷ s_check_uri ∷ s_check_uri_http_09 ∷ s_uri ∷ s_http_09 ∷ s_http_h
    ∷ s_http_ht ∷ s_http_htt ∷ s_http_http ∷ s_first_major_digit ∷ s_major_digit
    ∷ s_first_minor_digit ∷ s_minor_digit ∷ s_spaces_after_digit ∷ s_almost_done ∷ []

-- the case of the switch that an `int` selects, if any
unfoldable pub line_state : ℕ → Option LineState
line_state n = get_elem? line_states n

-- the `int` that an enumerator is
unfoldable pub line_code : LineState → ℕ
line_code s_start = 0
line_code s_method = 1
line_code s_spaces_before_uri = 2
line_code s_schema = 3
line_code s_schema_slash = 4
line_code s_schema_slash_slash = 5
line_code s_host_start = 6
line_code s_host = 7
line_code s_host_end = 8
line_code s_host_ip_literal = 9
line_code s_port = 10
line_code s_host_http_09 = 11
line_code s_after_slash_in_uri = 12
line_code s_check_uri = 13
line_code s_check_uri_http_09 = 14
line_code s_uri = 15
line_code s_http_09 = 16
line_code s_http_h = 17
line_code s_http_ht = 18
line_code s_http_htt = 19
line_code s_http_http = 20
line_code s_first_major_digit = 21
line_code s_major_digit = 22
line_code s_first_minor_digit = 23
line_code s_minor_digit = 24
line_code s_spaces_after_digit = 25
line_code s_almost_done = 26

-- One round: on to the next byte, `goto done`, or `return -n`. After a negative result the caller
-- uses nothing of the request but its descriptor and its buffer, so what the failing round wrote
-- is not kept.
pub data LineStep : Type 0 where
  next : LineState → HttpRequest → LineStep
  done : HttpRequest → LineStep
  fail : ℕ → LineStep

-- To split on a round and keep the equation.
pub data StepCases (t : LineStep) : Type 0 where
  next_is : (s : LineState) (r : HttpRequest) → t ≡ next s r → StepCases t
  done_is : (r : HttpRequest) → t ≡ done r → StepCases t
  fail_is : (n : ℕ) → t ≡ fail n → StepCases t

pub step-cases : (t : LineStep) → StepCases t
step-cases (next s r) = next_is s r refl
step-cases (done r) = done_is r refl
step-cases (fail n) = fail_is n refl

pub line_state-code : (s : LineState) → line_state (line_code s) ≡ some s
unfolding line_state line_code
line_state-code s_start = refl
line_state-code _ = refl
