-- ===== src/Http/Header/Printed.antt =====
-- `http_parse_request_header` (src/http/parse.c) reads back a header line that a client writes, and
-- leaves the hash under which a handler for that name is registered.
use mathlib.Core.List.{append_assoc}
use cserv.Prelude.{
  length-append, drop, drop-length_append, ℕ, ◌+◌, ◌≡◌, ◌≢◌, refl, sym, ap, ◌∙◌, arith, List, [],
  ◌∷◌, ◌++◌, length,
}
use cserv.Http.Types.{slice, str_bytes, cr, lf, HttpRequest}
use cserv.Http.Header.State.{s_start, header_code, Locals}
use cserv.Http.Header.Loop.{line, header_loop, http_parse_request_header, parse-header_loop}
use cserv.Http.Request.Handlers.{hash_key_lc}
use cserv.Http.Header.RoundTrip.{
  NameByte, AllName, ValueByte, AllValue, last_of, print_header, looped,
}

-- what the request holds behind a header line
pub record ReadHeader (r r' : HttpRequest) (name value : List ℕ) (stop : ℕ) : Type 0 where
  pub run : http_parse_request_header r ≡ line r'
  pub buffer : r'.header ≡ record r.header { pos = stop }
  pub start : r'.state ≡ header_code s_start
  pub valid : r'.invalid_header ≡ 0
  pub name_bytes : str_bytes r.header.mem r'.header_name ≡ name
  pub value_bytes : str_bytes r.header.mem r'.header_value ≡ value
  pub hash : r'.header_hash ≡ hash_key_lc name

-- the bytes up to the value
abbrev upto : List ℕ → List ℕ → List ℕ
upto pre name = pre ++ (name ++ (b':' ∷ b' ' ∷ []))

upto-split : (pre name t : List ℕ) → pre ++ (name ++ (b':' ∷ b' ' ∷ t)) ≡ upto pre name ++ t
upto-split pre name t = sym (
    append_assoc pre (name ++ (b':' ∷ b' ' ∷ [])) t
    ∙ ap (λ z. pre ++ z) (append_assoc name (b':' ∷ b' ' ∷ []) t))

length-upto : (pre name : List ℕ) → length (upto pre name) ≡ length pre + length name + 2
length-upto pre name =
    let a = length-append pre (name ++ (b':' ∷ b' ' ∷ [])) in
    let b = length-append name (b':' ∷ b' ' ∷ []) in omega arith

module _ (r : HttpRequest) (pre : List ℕ) (x : ℕ) (w : List ℕ) (c : ℕ) (v rest : List ℕ)
    (bytes : r.header.mem ≡ pre ++ print_header (x ∷ w) (c ∷ v) rest)
    (at : r.header.pos ≡ length pre) (first : r.state ≡ header_code s_start) (x_name : NameByte x)
    (w_name : AllName w) (c_value : ValueByte c) (c_full : c ≢ b' ') (v_value : AllValue v)
    (full : last_of c v ≢ b' ') where
  -- A header line is parsed as one line from the state s_start, wherever it stands in the buffer and
  -- whatever follows it: a name of letters, digits and dashes, a colon, a space, a value without CR,
  -- LF and NUL that neither begins nor ends with a space, and CRLF. The request then holds that name
  -- and that value, the header is valid, `pos` is behind the line, and `header_hash` is
  -- `hash_key_lc` of the name, under which a handler for it is registered.
  pub http_parse_request_header-print :
      (r' : HttpRequest) × ReadHeader r r' (x ∷ w) (c ∷ v) (length pre + (length w + length v + 6))
  http_parse_request_header-print =
      let l : Locals = record { hash = r.header_hash; i = r.lowcase_index } in
      let k = looped r l (length pre) x w c v rest x_name w_name c_value c_full v_value full in
      let value_tail : List ℕ = (c ∷ v) ++ (cr ∷ lf ∷ rest) in
      let at_value = length-upto pre (x ∷ w) in
      (
        k.result,
        record {
          run =
              parse-header_loop s_start r first
              ∙ ap (λ n. header_loop s_start r l n (drop n r.header.mem)) at
              ∙ ap (header_loop s_start r l (length pre)) (
                  ap (drop (length pre)) bytes
                  ∙ drop-length_append pre (print_header (x ∷ w) (c ∷ v) rest))
              ∙ k.run;
          buffer = k.buffer;
          start = k.start;
          valid = k.invalid;
          name_bytes =
              ap (str_bytes r.header.mem) k.name
              ∙ slice r.header.mem pre (x ∷ w) (b':' ∷ b' ' ∷ value_tail) _ _ bytes refl refl;
          value_bytes =
              ap (str_bytes r.header.mem) k.value
              ∙ slice r.header.mem (upto pre (x ∷ w)) (c ∷ v) (cr ∷ lf ∷ rest) _ _
                  (bytes ∙ upto-split pre (x ∷ w) value_tail) (omega arith) refl;
          hash = k.hash;
        },
      )
