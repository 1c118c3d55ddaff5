-- ===== src/Http/Line/Arrived.antt =====
-- `http_parse_request_line` on a line as a client writes it, up to the code behind the label `done`:
-- a method, a target that starts with a slash, and a version.
use cserv.Prelude.{
  ℕ, suc, ◌+◌, ◌-◌, ◌≤◌, ◌≡◌, refl, sym, ap, ◌∙◌, arith, false, List, [], ◌∷◌, ◌++◌, some, length,
  drop, drop-length_append,
}
use cserv.Http.Types.{slice, str_eq, addr, str_bytes, cr, lf, HttpMethod, HttpRequest}
use cserv.Http.Method.{get_request_method}
use cserv.Http.Method.Names.{method_name, get_request_method-method_name}
use cserv.Http.Line.State.{s_start, s_after_slash_in_uri, line_code}
use cserv.Http.Line.Loop.{line_done, line_loop, http_parse_request_line, parse-line_loop}
use cserv.Http.Line.Target.{is_unknown}
use cserv.Http.Line.RoundTrip.{
  AllNamed, AllPlain, path_loop, MethodName, after_slash, method_part, after_uri, path_end, ended,
  version_part,
}

-- the version, as a client writes it
abbrev pub protocol_text : ℕ → ℕ → List ℕ
protocol_text x y = b'H' ∷ b'T' ∷ b'T' ∷ b'P' ∷ b'/' ∷ (b'0' + x) ∷ b'.' ∷ (b'0' + y) ∷ []

-- a request line and what follows it
abbrev pub print_line : HttpMethod → List ℕ → ℕ → ℕ → List ℕ → List ℕ
print_line m target x y rest =
    method_name m ++ b' ' ∷ (target ++ b' ' ∷ (protocol_text x y ++ cr ∷ lf ∷ rest))

abbrev pub target_tail : List ℕ → ℕ → ℕ → List ℕ → List ℕ
target_tail body x y rest = body ++ b' ' ∷ (protocol_text x y ++ cr ∷ lf ∷ rest)

-- the loop over the line, with the request and the index that it hands to the code behind `done`
pub record Arrived (mem : List ℕ) (r : HttpRequest) (m : HttpMethod) (i u j x y : ℕ)
    (bytes : List ℕ) : Type 0 where
  pub reached : HttpRequest
  pub run :
      line_loop mem s_start r i bytes
      ≡ line_done reached (j + 1 + 1 + 1 + 1 + 1 + 1 + 1 + 1 + 1 + 1)
  pub header : reached.header ≡ r.header
  pub method : reached.method ≡ m
  pub major : reached.http_major ≡ x
  pub minor : reached.http_minor ≡ y
  pub uri : reached.uri ≡ record { p = some u; len = j - u }
  pub protocol : reached.http_protocol ≡ record { p = some (j + 1); len = 8 }

module _ (mem : List ℕ) (m : HttpMethod) (r : HttpRequest) (i c : ℕ) (cs body : List ℕ) (x y : ℕ)
    (rest : List ℕ) (letters : AllNamed (c ∷ cs)) (known : is_unknown m ≡ false)
    (slice : get_request_method (str_bytes mem (record { p = some i; len = suc (length cs) })) ≡ m)
    (plain : AllPlain body) (x_low : 1 ≤ x) (x_high : x ≤ 9) (y_high : y ≤ 9) where
  pub arrived :
      Arrived mem r m i
        (i + length cs + 2)
        (i + length cs + 3 + length body)
        x
        y
        (c ∷ cs ++ b' ' ∷ b'/' ∷ target_tail body x y rest)
  arrived =
      let tail : List ℕ = target_tail body x y rest in
      let r1 : HttpRequest = after_slash mem m r i c cs tail letters known slice in
      let i1 : ℕ = i + 1 + length cs + 1 + 1 in
      let (s2, r2, p2, a2, run2) =
        path_loop mem s_after_slash_in_uri r1 i1 body (b' ' ∷ (protocol_text x y ++ cr ∷ lf ∷ rest))
          tt plain in
      let j : ℕ = i1 + length body in
      let r3 : HttpRequest =
        after_uri mem r2 j
          (b'T' ∷ b'T' ∷ b'P' ∷ b'/' ∷ (b'0' + x) ∷ b'.' ∷ (b'0' + y) ∷ cr ∷ lf ∷ rest) in
      let r4 : HttpRequest = ended mem r3 (j + 1 + 1) x y rest x_low x_high y_high in
      record {
        reached = r4;
        run =
            method_part mem m r i c cs tail letters known slice
            ∙ run2
            ∙ path_end mem r2 j _ s2 p2
            ∙ version_part mem r3 (j + 1 + 1) x y rest x_low x_high y_high
            ∙ ap (line_done r4) (omega arith);
        header = a2.header;
        method = a2.method;
        major = refl;
        minor = refl;
        uri =
            str_eq (ap (λ s. s.p) a2.uri ∙ ap some (omega arith))
              (ap (λ s. j - addr s.p) a2.uri ∙ omega arith);
        protocol = str_eq (ap some (omega arith)) (omega arith);
      }

module _ (r : HttpRequest) (pre : List ℕ) (m : HttpMethod) (body : List ℕ) (x y : ℕ) (rest : List ℕ)
    (buffer : r.header.mem ≡ pre ++ print_line m (b'/' ∷ body) x y rest) (name : MethodName m) where
  abbrev pub name_bytes : List ℕ
  name_bytes = name.first ∷ name.later

  pub spelled : r.header.mem ≡ pre ++ (name_bytes ++ b' ' ∷ b'/' ∷ target_tail body x y rest)
  spelled = buffer ∙ ap (λ n. pre ++ (n ++ b' ' ∷ b'/' ∷ target_tail body x y rest)) name.spelled

  pub method_slice :
      get_request_method
        (str_bytes r.header.mem (record { p = some (length pre); len = suc (length name.later) }))
      ≡ m
  method_slice =
      ap get_request_method (
        slice r.header.mem pre name_bytes (b' ' ∷ b'/' ∷ target_tail body x y rest) (length pre)
          (suc (length name.later)) spelled refl refl
        ∙ sym name.spelled)
      ∙ get_request_method-method_name m

  -- where the parser starts
  pub parse_started :
      r.header.pos ≡ length pre
      → r.state ≡ line_code s_start
      → http_parse_request_line r
        ≡ line_loop r.header.mem s_start r
            (length pre)
            (name_bytes ++ b' ' ∷ b'/' ∷ target_tail body x y rest)
  parse_started at begun =
      parse-line_loop s_start r begun
      ∙ ap (λ n. line_loop r.header.mem s_start r n (drop n r.header.mem)) at
      ∙ ap (line_loop r.header.mem s_start r (length pre)) (
          ap (drop (length pre)) spelled
          ∙ drop-length_append pre (name_bytes ++ b' ' ∷ b'/' ∷ target_tail body x y rest))
