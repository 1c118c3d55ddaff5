-- ===== src/Http/Line/Printed.antt =====
-- `http_parse_request_line` reads back what a client writes: a method, a target that starts with a
-- slash, and a version.
use mathlib.Core.List.{append_assoc}
use cserv.Prelude.{
  ℕ, suc, ◌+◌, ◌-◌, ◌*◌, ◌≤◌, ◌≡◌, ◌≢◌, refl, sym, ap, ◌∙◌, arith, false, List, [], ◌∷◌, ◌++◌, some,
  length, length-append,
}
use cserv.Http.Types.{slice, buffer_eq, str_bytes, cr, lf, HttpMethod, http_unknown, HttpRequest}
use cserv.Http.Method.{get_request_method}
use cserv.Http.Line.State.{s_start, line_code}
use cserv.Http.Line.Loop.{complete, line_done, end_exten, line_loop, http_parse_request_line}
use cserv.Http.Line.Target.{is_unknown}
use cserv.Http.Line.RoundTrip.{AllNamed, AllPlain, MethodName, name_of}
use cserv.Http.Line.Arrived.{
  protocol_text, print_line, target_tail, arrived, spelled, method_slice, parse_started,
}

-- what the request holds behind the line
pub record Read (r r' : HttpRequest) (m : HttpMethod) (target : List ℕ) (x y stop : ℕ)
    : Type 0 where
  pub run : http_parse_request_line r ≡ complete r'
  pub buffer : r'.header ≡ record r.header { pos = stop }
  pub start : r'.state ≡ line_code s_start
  pub method : r'.method ≡ m
  pub uri : str_bytes r.header.mem r'.uri ≡ target
  pub protocol : str_bytes r.header.mem r'.http_protocol ≡ protocol_text x y
  pub version : r'.http_version ≡ x * 1000 + y

abbrev finished : HttpRequest → ℕ → ℕ → ℕ → HttpRequest
finished r i x y = record r {
  exten = end_exten r.exten.p r.uri r.exten;
  header = record r.header { pos = i + 1 };
  http_major = x;
  http_version = x * 1000 + y;
  state = line_code s_start;
}

done_part :
    (r : HttpRequest) (i x y : ℕ)
    → r.http_major ≡ x
    → r.http_minor ≡ y
    → 1 ≤ x
    → y ≤ 8
    → line_done r i ≡ complete (finished r i x y)
unfolding line_done
done_part r i x y e f h k = ground (arith, e, f)

-- the loop over the line, with where it stops and what it hands on
record Looped (mem : List ℕ) (r : HttpRequest) (m : HttpMethod) (i u j x y : ℕ) (bytes : List ℕ)
    : Type 0 where
  result : HttpRequest
  run : line_loop mem s_start r i bytes ≡ complete result
  buffer : result.header ≡ record r.header { pos = j + 11 }
  start : result.state ≡ line_code s_start
  method : result.method ≡ m
  uri : result.uri ≡ record { p = some u; len = j - u }
  protocol : result.http_protocol ≡ record { p = some (j + 1); len = 8 }
  version : result.http_version ≡ x * 1000 + y

module _ (mem : List ℕ) (m : HttpMethod) (r : HttpRequest) (i c : ℕ) (cs body : List ℕ) (x y : ℕ)
    (rest : List ℕ) (letters : AllNamed (c ∷ cs)) (known : is_unknown m ≡ false)
    (slice : get_request_method (str_bytes mem (record { p = some i; len = suc (length cs) })) ≡ m)
    (plain : AllPlain body) (x_low : 1 ≤ x) (x_high : x ≤ 9) (y_high : y ≤ 8) where
  looped :
      Looped mem r m i
        (i + length cs + 2)
        (i + length cs + 3 + length body)
        x
        y
        (c ∷ cs ++ b' ' ∷ b'/' ∷ target_tail body x y rest)
  looped =
      let a =
        arrived mem m r i c cs body x y rest letters known slice plain x_low x_high
          (omega (arith, y_high)) in
      record {
        result = finished a.reached _ x y;
        run = a.run ∙ done_part a.reached _ x y a.major a.minor x_low y_high;
        buffer = buffer_eq (ap (λ b. b.mem) a.header) (ap (λ b. b.size) a.header) (omega arith);
        start = refl;
        method = a.method;
        uri = a.uri;
        protocol = a.protocol;
        version = refl;
      }

-- the bytes up to the space behind `w`
abbrev upto : List ℕ → List ℕ → List ℕ
upto pre w = pre ++ (w ++ b' ' ∷ [])

upto-split : (pre w t : List ℕ) → pre ++ (w ++ b' ' ∷ t) ≡ upto pre w ++ t
upto-split pre w t =
    sym (append_assoc pre (w ++ b' ' ∷ []) t ∙ ap (λ z. pre ++ z) (append_assoc w (b' ' ∷ []) t))

length-upto : (pre w : List ℕ) → length (upto pre w) ≡ length pre + length w + 1
length-upto pre w =
    let a = length-append pre (w ++ b' ' ∷ []) in let b = length-append w (b' ' ∷ []) in omega arith

length-print_line :
    (m : HttpMethod) (name : MethodName m) (body : List ℕ) (x y : ℕ)
    → length (print_line m (b'/' ∷ body) x y [])
      ≡ length (name.first ∷ name.later) + 13 + length body
length-print_line m name body x y =
    let ends : List ℕ = b' ' ∷ (protocol_text x y ++ cr ∷ lf ∷ []) in
    let w : List ℕ = name.first ∷ name.later in
    let e : length (print_line m (b'/' ∷ body) x y [])
        ≡ length (w ++ b' ' ∷ b'/' ∷ (body ++ ends)) =
      ap (λ n. length (n ++ b' ' ∷ b'/' ∷ (body ++ ends))) name.spelled in
    let a = length-append w (b' ' ∷ b'/' ∷ (body ++ ends)) in
    let b = length-append body ends in omega arith

module _ (r : HttpRequest) (pre : List ℕ) (m : HttpMethod) (body : List ℕ) (x y : ℕ) (rest : List ℕ)
    (buffer : r.header.mem ≡ pre ++ print_line m (b'/' ∷ body) x y rest)
    (at : r.header.pos ≡ length pre) (begun : r.state ≡ line_code s_start)
    (known : m ≢ http_unknown) (plain : AllPlain body) (x_low : 1 ≤ x) (x_high : x ≤ 9)
    (y_high : y ≤ 8) where
  -- A request line that names a known method, a target that starts with a slash and holds no space,
  -- CR, LF or NUL, and a version x.y with x from 1 to 9 and y from 0 to 8 is parsed completely from
  -- the state s_start, wherever it stands in the buffer and whatever follows it. The request then
  -- holds that method, that target, the text of that version and the number 1000 * x + y, the
  -- buffer is unchanged with `pos` behind the line, and the state is s_start again.
  pub http_parse_request_line-print :
      (r' : HttpRequest) × Read r r' m
        (b'/' ∷ body)
        x
        y
        (length pre + length (print_line m (b'/' ∷ body) x y []))
  http_parse_request_line-print =
      let name = name_of m known in
      let w : List ℕ = name.first ∷ name.later in
      let uri_tail : List ℕ = b' ' ∷ (protocol_text x y ++ cr ∷ lf ∷ rest) in
      let whole : r.header.mem ≡ pre ++ (w ++ b' ' ∷ b'/' ∷ (body ++ uri_tail)) =
        spelled r pre m body x y rest buffer name in
      let l =
        looped r.header.mem m r (length pre) name.first name.later body x y rest name.letters
          name.known (method_slice r pre m body x y rest buffer name) plain x_low x_high y_high in
      let size : length (print_line m (b'/' ∷ body) x y []) ≡ length w + 13 + length body =
        length-print_line m name body x y in
      let at_uri : List ℕ = upto pre w in
      let at_protocol : List ℕ = upto at_uri (b'/' ∷ body) in
      let split_uri : r.header.mem ≡ at_uri ++ (b'/' ∷ body ++ uri_tail) =
        whole ∙ upto-split pre w (b'/' ∷ body ++ uri_tail) in
      let size_uri : length at_uri ≡ length pre + length w + 1 = length-upto pre w in
      let size_protocol : length at_protocol ≡ length at_uri + length (b'/' ∷ body) + 1 =
        length-upto at_uri (b'/' ∷ body) in
      (
        l.result,
        record {
          run = parse_started r pre m body x y rest buffer name at begun ∙ l.run;
          buffer = l.buffer ∙ ap (λ n. record r.header { pos = n }) (omega arith);
          start = l.start;
          method = l.method;
          uri =
              ap (str_bytes r.header.mem) l.uri
              ∙ slice r.header.mem at_uri (b'/' ∷ body) uri_tail _ _ split_uri (omega arith)
                  (omega arith);
          protocol =
              ap (str_bytes r.header.mem) l.protocol
              ∙ slice r.header.mem at_protocol (protocol_text x y) (cr ∷ lf ∷ rest) _ _
                  (split_uri
                    ∙ upto-split at_uri (b'/' ∷ body) (protocol_text x y ++ cr ∷ lf ∷ rest))
                  (omega arith) refl;
          version = l.version;
        },
      )
