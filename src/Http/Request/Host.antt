-- ===== src/Http/Request/Host.antt =====
-- `http_process_host` of src/http/request.c. The loop writes lower case letters over the value: the
-- loop here returns the bytes that it leaves.
use cserv.Prelude.{
  ℕ, ◌+◌, ◌-◌, ◌%◌, ◌^◌, Bool, List, [], ◌∷◌, ◌++◌, ◌&&◌, leb, ◌==◌, if◌then◌else◌, take, drop,
  length,
}
use cserv.Http.Types.{addr, str_bytes, HttpRequest}
use cserv.Http.Request.Atoi.{Handled, handled, refused}

pub data HostState : Type 0 where
  sw_usual sw_literal sw_rest : HostState

abbrev is_usual_state : HostState → Bool
is_usual_state sw_usual = Bool.true
is_usual_state _ = Bool.false

abbrev is_literal_state : HostState → Bool
is_literal_state sw_literal = Bool.true
is_literal_state _ = Bool.false

-- `size_t` subtraction wraps around.
abbrev pub sub_size : ℕ → ℕ → ℕ
sub_size a b = (a + 2 ^ 64 - b) % 2 ^ 64

-- the local variables of the function
pub record HostLocals : Type 0 where
  pub state : HostState
  pub dot_pos : ℕ
  pub host_len : ℕ

pub data HostStep : Type 0 where
  host_next : HostLocals → ℕ → HostStep
  host_fail : HostStep

-- one round, on the byte `ch` at index `i`; a byte that goes on is the one left in the buffer
unfoldable pub host_step : HostLocals → ℕ → ℕ → HostStep
host_step l i ch =
    if ch == b'.'
    then if l.dot_pos == sub_size i 1 then host_fail else host_next (record l { dot_pos = i }) ch
    else if ch == b':'
    then host_next
        (if is_usual_state l.state then record l { host_len = i; state = sw_rest } else l) ch
    else if ch == b'['
    then host_next (if i == 0 then record l { state = sw_literal } else l) ch
    else if ch == b']'
    then host_next
        (if is_literal_state l.state then record l { host_len = i + 1; state = sw_rest } else l) ch
    else if ch == 0
    then host_fail
    else if ch == b'/'
    then host_fail
    else host_next l (if leb b'A' ch && leb ch b'Z' then ch + 32 else ch)

pub data HostLoop : Type 0 where
  host_done : HostLocals → List ℕ → HostLoop
  host_failed : HostLoop

-- in front of what the later rounds leave
abbrev pub host_cons : ℕ → HostLoop → HostLoop
host_cons ch (host_done l bytes) = host_done l (ch ∷ bytes)
host_cons ch host_failed = host_failed

unfoldable pub host_loop : HostLocals → ℕ → List ℕ → HostLoop
host_loop l i [] = host_done l []
host_loop l i (ch ∷ rest) = elim (host_step l i ch) [
  | host_next l' ch' ↦ host_cons ch' (host_loop l' (i + 1) rest)
  | host_fail ↦ host_failed
]

-- a trailing dot is not part of the host
unfoldable pub trim_dot : HostLocals → ℕ
trim_dot l = if l.dot_pos == sub_size l.host_len 1 then l.host_len - 1 else l.host_len

-- the bytes `bytes` written at offset `i`
abbrev pub write_bytes : List ℕ → ℕ → List ℕ → List ℕ
write_bytes mem i bytes = take i mem ++ (bytes ++ drop (i + length bytes) mem)

unfoldable pub http_process_host : HttpRequest → Handled
http_process_host r =
    let value = str_bytes r.header.mem r.header_value in
    let n = length value in
    let start : HostLocals = record { state = sw_usual; dot_pos = n; host_len = n } in
    elim (host_loop start 0 value) [
      | host_failed ↦ refused
      | host_done l bytes ↦
          let host_len = trim_dot l in
          if host_len == 0
          then refused
          else handled (record r {
            host = record { p = r.header_value.p; len = host_len };
            header = record r.header {
              mem = write_bytes r.header.mem (addr r.header_value.p) bytes;
            };
          })
    ]
