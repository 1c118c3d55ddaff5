-- ===== src/Http/Line/Chunks.antt =====
-- Reading a request line in pieces: what `recv` appends behind `last` while the parser waits for
-- more makes no difference to the result.
use cserv.Prelude.{
  ℕ, ◌+◌, ◌-◌, ◌≤◌, ◌≡◌, refl, sym, ap, ◌∙◌, List, [], ◌∷◌, ◌++◌, arith, length, drop,
  drop-append_of_le, drop-length_append, take-append_of_le, length-drop,
}
use cserv.Http.Types.{Str, addr, str_bytes, Buffer, last, HttpRequest}
use cserv.Http.Line.State.{
  LineState, s_start, s_method, LineStep, next, done, fail, line_code, next_is, done_is, fail_is,
  step-cases,
}
use cserv.Http.Line.Target.{
  line_start, line_method, line_spaces_before_uri, line_schema, line_schema_slash,
  line_schema_slash_slash, line_host_start, line_host, line_host_end, line_host_ip_literal,
  line_port, line_host_http_09,
}
use cserv.Http.Line.Path.{
  line_after_slash_in_uri, line_check_uri, line_check_uri_http_09, line_uri, line_http_09,
}
use cserv.Http.Line.Version.{
  line_http_h, line_http_ht, line_http_htt, line_http_http, line_first_major_digit,
  line_major_digit, line_first_minor_digit, line_minor_digit, line_spaces_after_digit,
  line_almost_done,
}
use cserv.Http.Line.Loop.{
  line_step, LineResult, complete, more, error, line_done, line_loop, line_loop-nil, line_loop-next,
  line_loop-done, line_loop-fail, http_parse_request_line, parse-line_loop,
}
use cserv.Http.Line.Bounds.{Inv, line_step-Inv}

-- the request with another buffer and another stored state
abbrev stored : Buffer → ℕ → HttpRequest → HttpRequest
stored b k r = record r { header = b; state = k }

abbrev map_step : (HttpRequest → HttpRequest) → LineStep → LineStep
map_step f (next s r) = next s (f r)
map_step f (done r) = done (f r)
map_step f (fail n) = fail n

-- No case of the switch reads or writes the buffer's offsets or the stored state.
line_step-stored :
    (mem : List ℕ) (s : LineState) (r : HttpRequest) (i ch : ℕ) (b : Buffer) (k : ℕ)
    → line_step mem s (stored b k r) i ch ≡ map_step (stored b k) (line_step mem s r i ch)
unfolding line_step line_start line_method line_spaces_before_uri line_schema line_schema_slash
    line_schema_slash_slash line_host_start line_host line_host_end line_host_ip_literal line_port
    line_host_http_09 line_after_slash_in_uri line_check_uri line_check_uri_http_09 line_uri
    line_http_09 line_http_h line_http_ht line_http_htt line_http_http line_first_major_digit
    line_major_digit line_first_minor_digit line_minor_digit line_spaces_after_digit
    line_almost_done
line_step-stored mem s_start r i ch b k = ground arith
line_step-stored mem _ r i ch b k = ground arith

abbrev KeepsHeader : HttpRequest → LineStep → Type 0
KeepsHeader r (next s r') = r'.header ≡ r.header
KeepsHeader r (done r') = r'.header ≡ r.header
KeepsHeader r (fail n) = Unit {0}

line_step-KeepsHeader :
    (mem : List ℕ) (s : LineState) (r : HttpRequest) (i ch : ℕ)
    → KeepsHeader r (line_step mem s r i ch)
unfolding line_step line_start line_method line_spaces_before_uri line_schema line_schema_slash
    line_schema_slash_slash line_host_start line_host line_host_end line_host_ip_literal line_port
    line_host_http_09 line_after_slash_in_uri line_check_uri line_check_uri_http_09 line_uri
    line_http_09 line_http_h line_http_ht line_http_htt line_http_http line_first_major_digit
    line_major_digit line_first_minor_digit line_minor_digit line_spaces_after_digit
    line_almost_done
line_step-KeepsHeader mem s_start r i ch = ground arith
line_step-KeepsHeader mem _ r i ch = ground arith

-- what a result keeps of the buffer
abbrev pub KeepsBuffer : Buffer → LineResult → Type 0
KeepsBuffer b (complete r) = (r.header.mem ≡ b.mem) × (r.header.size ≡ b.size)
KeepsBuffer b (more r) = (r.header.mem ≡ b.mem) × (r.header.size ≡ b.size)
KeepsBuffer b (error n) = Unit {0}

line_done-KeepsBuffer :
    (b : Buffer) (r : HttpRequest) (i : ℕ) → r.header ≡ b → KeepsBuffer b (line_done r i)
unfolding line_done
line_done-KeepsBuffer b r i e = rw (← e) (ground arith)

line_loop-KeepsBuffer :
    (b : Buffer) (mem rest : List ℕ) (s : LineState) (r : HttpRequest) (i : ℕ)
    → r.header ≡ b
    → KeepsBuffer b (line_loop mem s r i rest)
line_loop-KeepsBuffer b mem [] s r i e = rw (line_loop-nil mem s r i, ← e) (refl, refl)
line_loop-KeepsBuffer b mem (ch ∷ rest) s r i e = elim (step-cases (line_step mem s r i ch)) [
  | next_is s' r' t ↦ rw (line_loop-next mem rest s r i ch t) (
      line_loop-KeepsBuffer b mem rest s' r' (i + 1)
        (rw t at (line_step-KeepsHeader mem s r i ch) ∙ e))
  | done_is r' t ↦
      rw (line_loop-done mem rest s r i ch t)
        (line_done-KeepsBuffer b r' i (rw t at (line_step-KeepsHeader mem s r i ch) ∙ e))
  | fail_is n t ↦ rw (line_loop-fail mem rest s r i ch t) tt
]

pub parse-KeepsBuffer :
    (s : LineState) (r : HttpRequest)
    → r.state ≡ line_code s
    → KeepsBuffer r.header (http_parse_request_line r)
parse-KeepsBuffer s r st =
    rw (parse-line_loop s r st) (line_loop-KeepsBuffer r.header r.header.mem _ s r _ refl)

str_bytes-append :
    (mem ys : List ℕ) (s : Str)
    → addr s.p + s.len ≤ length mem
    → str_bytes (mem ++ ys) s ≡ str_bytes mem s
str_bytes-append mem ys s h = rw (
  drop-append_of_le (addr s.p) mem ys (omega arith),
  take-append_of_le s.len (drop (addr s.p) mem) ys (omega (arith, length-drop (addr s.p) mem)),
)

-- A case of the switch looks only at bytes in front of `p`.
line_step-append :
    (mem ys : List ℕ) (s : LineState) (r : HttpRequest) (i ch : ℕ)
    → Inv s r i
    → i ≤ length mem
    → line_step (mem ++ ys) s r i ch ≡ line_step mem s r i ch
unfolding line_step line_method
line_step-append mem ys s_method r i ch h le = rw (
    str_bytes-append mem ys (record { p = r.method_name.p; len = i - addr r.method_name.p })
      (omega arith))
line_step-append mem ys _ r i ch h le = refl

-- what `recv` does to the buffer
abbrev pub append : List ℕ → HttpRequest → HttpRequest
append ys r = record r { header = record r.header { mem = r.header.mem ++ ys } }

-- The result of a run that got the bytes `ys` after the result at hand: a run that wants more
-- goes on with them.
abbrev pub resume : List ℕ → LineResult → LineResult
resume ys (complete r) = complete (append ys r)
resume ys (more r) = http_parse_request_line (append ys r)
resume ys (error n) = error n

line_done-stored :
    (r : HttpRequest) (i : ℕ) (b : Buffer) (k k' q q' : ℕ)
    → line_done (stored (record b { pos = q }) k r) i
      ≡ line_done (stored (record b { pos = q' }) k' r) i
unfolding line_done
line_done-stored r i b k k' q q' = refl

-- `line_loop` neither reads `pos` nor the stored state.
line_loop-stored :
    (mem rest : List ℕ) (s : LineState) (r : HttpRequest) (i : ℕ) (b : Buffer) (k k' q q' : ℕ)
    → line_loop mem s (stored (record b { pos = q }) k r) i rest
      ≡ line_loop mem s (stored (record b { pos = q' }) k' r) i rest
line_loop-stored mem [] s r i b k k' q q' = line_loop-nil mem s _ i ∙ sym (line_loop-nil mem s _ i)
line_loop-stored mem (ch ∷ rest) s r i b k k' q q' = elim (step-cases (line_step mem s r i ch)) [
  | next_is s' r' e ↦
      line_loop-next mem rest s _ i ch (moved k q e)
      ∙ line_loop-stored mem rest s' r' (i + 1) b k k' q q'
      ∙ sym (line_loop-next mem rest s _ i ch (moved k' q' e))
  | done_is r' e ↦
      line_loop-done mem rest s _ i ch (moved k q e)
      ∙ line_done-stored r' i b k k' q q'
      ∙ sym (line_loop-done mem rest s _ i ch (moved k' q' e))
  | fail_is n e ↦
      line_loop-fail mem rest s _ i ch (moved k q e)
      ∙ sym (line_loop-fail mem rest s _ i ch (moved k' q' e))
]
  where
    moved :
        (k q : ℕ) {t : LineStep}
        → line_step mem s r i ch ≡ t
        → line_step mem s (stored (record b { pos = q }) k r) i ch
          ≡ map_step (stored (record b { pos = q }) k) t
    moved k q e = line_step-stored mem s r i ch _ k ∙ ap (map_step _) e

-- the request over the buffer `b`, with `ys` appended to it
abbrev grown : Buffer → List ℕ → ℕ → HttpRequest → HttpRequest
grown b ys k r = stored (record b { mem = b.mem ++ ys }) k r

line_done-append :
    (r : HttpRequest) (ys : List ℕ) (i : ℕ) (b : Buffer) (k : ℕ)
    → r.header ≡ b
    → line_done (grown b ys k r) i ≡ resume ys (line_done r i)
unfolding line_done
line_done-append r ys i b k e = rw (← e) (ground arith)

line_loop-append :
    (b : Buffer) (ys rest : List ℕ) (s : LineState) (r : HttpRequest) (i k : ℕ)
    → r.header ≡ b
    → Inv s r i
    → i + length rest ≡ length b.mem
    → line_loop (b.mem ++ ys) s (grown b ys k r) i (rest ++ ys)
      ≡ resume ys (line_loop b.mem s r i rest)
line_loop-append b ys [] s r i k e h len =
    rw (line_loop-nil b.mem s r i, unfolding_parse)
      (line_loop-stored (b.mem ++ ys) ys s r i (record b { mem = b.mem ++ ys }) k (line_code s)
        b.pos i)
  where
    unfolding_parse :
        http_parse_request_line
          (append ys (record r { header = record r.header { pos = i }; state = line_code s }))
        ≡ line_loop
            (b.mem ++ ys)
            s
            (stored (record b { mem = b.mem ++ ys; pos = i }) (line_code s) r)
            i
            ys
    unfolding_parse =
        parse-line_loop s
          (append ys (record r { header = record r.header { pos = i }; state = line_code s })) refl
        ∙ rw (← e) (
            ap (line_loop (r.header.mem ++ ys) s _ i) (
              ap (λ n. drop n (r.header.mem ++ ys)) {x = i} {y = length r.header.mem}
                (omega (arith, ap (λ (c : Buffer). length c.mem) e))
              ∙ drop-length_append r.header.mem ys))
line_loop-append b ys (ch ∷ rest) s r i k e h len = elim (step-cases (line_step b.mem s r i ch)) [
  | next_is s' r' t ↦
      line_loop-next (b.mem ++ ys) (rest ++ ys) s _ i ch (moved t)
      ∙ line_loop-append b ys rest s' r' (i + 1) k
          (rw t at (line_step-KeepsHeader b.mem s r i ch) ∙ e)
          (rw t at (line_step-Inv b.mem s r i ch h)) (omega arith)
      ∙ ap (resume ys) (sym (line_loop-next b.mem rest s r i ch t))
  | done_is r' t ↦
      line_loop-done (b.mem ++ ys) (rest ++ ys) s _ i ch (moved t)
      ∙ line_done-append r' ys i b k (rw t at (line_step-KeepsHeader b.mem s r i ch) ∙ e)
      ∙ ap (resume ys) (sym (line_loop-done b.mem rest s r i ch t))
  | fail_is n t ↦
      line_loop-fail (b.mem ++ ys) (rest ++ ys) s _ i ch (moved t)
      ∙ ap (resume ys) (sym (line_loop-fail b.mem rest s r i ch t))
]
  where
    moved :
        {t : LineStep}
        → line_step b.mem s r i ch ≡ t
        → line_step (b.mem ++ ys) s (grown b ys k r) i ch
          ≡ map_step (stored (record b { mem = b.mem ++ ys }) k) t
    moved t =
        line_step-stored (b.mem ++ ys) s r i ch _ k
        ∙ ap (map_step _) (line_step-append b.mem ys s r i ch h (omega arith) ∙ t)

-- Bytes that arrive after a call of `http_parse_request_line` change nothing: parsing the buffer
-- with `ys` appended gives what parsing it without them and then resuming gives, for every way to
-- cut the input. A complete line and an error stay what they are.
pub http_parse_request_line-append :
    (s : LineState) (r : HttpRequest) (ys : List ℕ)
    → r.state ≡ line_code s
    → r.header.pos ≤ last r.header
    → Inv s r r.header.pos
    → http_parse_request_line (append ys r) ≡ resume ys (http_parse_request_line r)
http_parse_request_line-append s r ys st le h =
    parse-line_loop s (append ys r) st
    ∙ ap (line_loop (r.header.mem ++ ys) s _ r.header.pos)
        (drop-append_of_le r.header.pos r.header.mem ys le)
    ∙ line_loop-append r.header ys (drop r.header.pos r.header.mem) s r r.header.pos r.state refl h
        (omega (arith, length-drop r.header.pos r.header.mem))
    ∙ ap (resume ys) (sym (parse-line_loop s r st))
