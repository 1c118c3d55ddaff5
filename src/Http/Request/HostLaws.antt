-- ===== src/Http/Request/HostLaws.antt =====
-- `http_process_host` of src/http/request.c: what it writes to the buffer, and the host it records.
use cserv.Prelude.{
  ℕ, ◌+◌, ◌≤◌, ◌<◌, ◌≡◌, refl, sym, ap, ◌∙◌, arith, List, [], ◌∷◌, ◌++◌, ◌==◌, inl, inr, Bool-cases,
  length, length-append, length-take, length-drop, take, drop,
}
use cserv.Http.Types.{addr, last, str_bytes, slice, HttpRequest}
use cserv.Http.Request.Atoi.{Handled, handled, refused}
use cserv.Http.Request.Handlers.{tolower}
use cserv.Http.Request.Host.{
  sw_usual, HostLocals, HostStep, host_next, host_fail, host_step, HostLoop, host_cons, host_done,
  host_failed, host_loop, trim_dot, write_bytes, http_process_host,
}

abbrev pub lower : List ℕ → List ℕ
lower [] = []
lower (c ∷ cs) = tolower c ∷ lower cs

length-lower : (cs : List ℕ) → length (lower cs) ≡ length cs
length-lower [] = refl
length-lower (c ∷ cs) = omega (arith, length-lower cs)

abbrev StepLower : ℕ → ℕ → HostStep → Type 0
StepLower n ch (host_next l ch') = (l.host_len ≤ n) × (ch' ≡ tolower ch)
StepLower n ch host_fail = Unit {0}

host_step-Lower :
    (l : HostLocals) (i ch n : ℕ) → l.host_len ≤ n → i < n → StepLower n ch (host_step l i ch)
unfolding host_step
host_step-Lower l i ch n h k = ground arith

abbrev LoopLower : ℕ → List ℕ → HostLoop → Type 0
LoopLower n value (host_done l bytes) = (l.host_len ≤ n) × (bytes ≡ lower value)
LoopLower n value host_failed = Unit {0}

data StepCases (t : HostStep) : Type 0 where
  next_is : (l : HostLocals) (c : ℕ) → t ≡ host_next l c → StepCases t
  fail_is : t ≡ host_fail → StepCases t

step-cases : (t : HostStep) → StepCases t
step-cases (host_next l c) = next_is l c refl
step-cases host_fail = fail_is refl

Lower-cons :
    (n ch c : ℕ) (rest : List ℕ) (t : HostLoop)
    → c ≡ tolower ch
    → LoopLower n rest t
    → LoopLower n (ch ∷ rest) (host_cons c t)
Lower-cons n ch c rest (host_done l bytes) e (h, k) = (h, rw (e, k) refl)
Lower-cons n ch c rest host_failed e h = tt

host_loop-Lower :
    (l : HostLocals) (i n : ℕ) (value : List ℕ)
    → l.host_len ≤ n
    → i + length value ≤ n
    → LoopLower n value (host_loop l i value)
unfolding host_loop
host_loop-Lower l i n [] h k = (h, refl)
host_loop-Lower l i n (ch ∷ rest) h k = elim (step-cases (host_step l i ch)) [
  | next_is l' c e ↦
      let (len, low) = rw e at (host_step-Lower l i ch n h (omega arith)) in
      rw (host_loop, e)
        (Lower-cons n ch c rest (host_loop l' (i + 1) rest) low
          (host_loop-Lower l' (i + 1) n rest len (omega arith)))
  | fail_is e ↦ rw (host_loop, e) tt
]

length-write_bytes :
    (mem bytes : List ℕ) (i : ℕ)
    → i + length bytes ≤ length mem
    → length (write_bytes mem i bytes) ≡ length mem
length-write_bytes mem bytes i h =
    let a = length-append (take i mem) (bytes ++ drop (i + length bytes) mem) in
    let b = length-append bytes (drop (i + length bytes) mem) in
    let c = length-take i mem (omega arith) in
    let d = length-drop (i + length bytes) mem in omega arith

-- what the request holds after `http_process_host`
abbrev pub Hosted : HttpRequest → Handled → Type 0
Hosted r refused = Unit
Hosted r (handled r') =
    (1 ≤ r'.host.len)
    × (r'.host.len ≤ r.header_value.len)
    × (r'.host.p ≡ r.header_value.p)
    × (str_bytes r'.header.mem r'.header_value ≡ lower (str_bytes r.header.mem r.header_value))
    × (last r'.header ≡ last r.header)

trim_dot-le : (l : HostLocals) → trim_dot l ≤ l.host_len
unfolding trim_dot
trim_dot-le l = ground arith

data LoopCases (t : HostLoop) : Type 0 where
  done_is : (l : HostLocals) (bytes : List ℕ) → t ≡ host_done l bytes → LoopCases t
  failed_is : t ≡ host_failed → LoopCases t

loop-cases : (t : HostLoop) → LoopCases t
loop-cases (host_done l bytes) = done_is l bytes refl
loop-cases host_failed = failed_is refl

-- When `http_process_host` accepts a value that lies inside the bytes received, the host is a
-- prefix of it that is not empty, the value is changed to small letters in the buffer, and no byte
-- is added or lost.
pub http_process_host-Hosted :
    (r : HttpRequest)
    → addr r.header_value.p + r.header_value.len ≤ last r.header
    → Hosted r (http_process_host r)
unfolding http_process_host
http_process_host-Hosted r h =
    let value : List ℕ = str_bytes r.header.mem r.header_value in
    let n : length value ≡ r.header_value.len =
      length-take r.header_value.len (drop (addr r.header_value.p) r.header.mem)
        (omega (arith, length-drop (addr r.header_value.p) r.header.mem)) in
    let start : HostLocals = record {
      state = sw_usual;
      dot_pos = length value;
      host_len = length value;
    } in
    let run = host_loop-Lower start 0 (length value) value (omega arith) (omega arith) in
    elim (loop-cases (host_loop start 0 value)) [
      | failed_is e ↦ rw (http_process_host, e) tt
      | done_is l bytes e ↦
          let (len, low) = rw e at run in
          let t = trim_dot-le l in
          elim (Bool-cases (trim_dot l == 0)) [
            | inl z ↦ rw (http_process_host, e, z) tt
            | inr z ↦
                let size : length bytes ≡ length value = ap length low ∙ length-lower value in
                let k = length-take (addr r.header_value.p) r.header.mem (omega arith) in
                rw (http_process_host, e, z)
                  (
                    grind (arith, z),
                    omega arith,
                    refl,
                    slice _ (take (addr r.header_value.p) r.header.mem) bytes
                          (drop (addr r.header_value.p + length bytes) r.header.mem) _ _ refl
                          (sym k) (omega arith)
                        ∙ low,
                    length-write_bytes r.header.mem bytes (addr r.header_value.p) (omega arith),
                  )
          ]
    ]
