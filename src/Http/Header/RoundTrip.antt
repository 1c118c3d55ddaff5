-- ===== src/Http/Header/RoundTrip.antt =====
-- The loops of `http_parse_request_header` (src/http/parse.c) over a header's name and its value.
use cserv.Prelude.{
  ℕ, suc, ◌+◌, ◌-◌, ◌%◌, ◌≡◌, ◌≢◌, refl, ap, ◌∙◌, arith, false, some, List, [], ◌∷◌, ◌++◌, ◌==◌,
  if◌then◌else◌, length, set,
}
use cserv.Http.Types.{str_eq, buffer_eq, addr, cr, lf, HttpRequest}
use cserv.Http.Header.State.{
  HeaderState, s_start, s_name, s_space_before_value, s_value, s_space_after_value, s_almost_done,
  header_code, hash_step, lc_header_len, lowcase, Locals, next, done,
}
use cserv.Http.Header.Steps.{
  end_name, end_value, header_start, header_name, header_space_before_value, header_value,
  header_space_after_value, header_almost_done, header_step,
}
use cserv.Http.Header.Loop.{line, leave, header_loop, header_loop-next, header_loop-done}
use cserv.Http.Request.Handlers.{tolower, hash_lc_loop, hash_key_lc}

-- a byte of a header's name
abbrev pub NameByte : ℕ → Type 0
NameByte c = (lowcase c == 0) ≡ false

abbrev pub AllName : List ℕ → Type 0
AllName [] = Unit
AllName (c ∷ cs) = NameByte c × AllName cs

lowcase-tolower : (c : ℕ) → NameByte c → lowcase c ≡ tolower c
unfolding lowcase
lowcase-tolower c h = ground arith

-- a header line, and what follows it
abbrev pub print_header : List ℕ → List ℕ → List ℕ → List ℕ
print_header name value rest = name ++ (b':' ∷ b' ' ∷ (value ++ (cr ∷ lf ∷ rest)))

-- what the loops over the name and the value leave alone
record Same (r r' : HttpRequest) : Type 0 where
  header : r'.header ≡ r.header
  name : r'.header_name ≡ r.header_name
  invalid : r'.invalid_header ≡ r.invalid_header
  value : r'.header_value.p ≡ r.header_value.p

Same-refl : (r : HttpRequest) → Same r r
Same-refl r = record { header = refl; name = refl; invalid = refl; value = refl }

Same-trans : {r s t : HttpRequest} → Same r s → Same s t → Same r t
Same-trans a b = record {
  header = b.header ∙ a.header;
  name = b.name ∙ a.name;
  invalid = b.invalid ∙ a.invalid;
  value = b.value ∙ a.value;
}

abbrev named : HttpRequest → Locals → ℕ → HttpRequest
named r l x = record r { lowcase_header = set r.lowcase_header l.i (lowcase x) }

abbrev hashed : Locals → ℕ → Locals
hashed l x = record { hash = hash_step l.hash (lowcase x); i = (l.i + 1) % lc_header_len }

name_byte :
    (r : HttpRequest) (l : Locals) (p x : ℕ)
    → NameByte x
    → header_step s_name r l p x ≡ next s_name (named r l x) (hashed l x)
unfolding header_step header_name
name_byte r l p x k = ground (arith, k)

name_loop :
    (r : HttpRequest) (l : Locals) (p : ℕ) (w tail : List ℕ)
    → AllName w
    → (r' : HttpRequest) × (l' : Locals) × Same r r'
      × (l'.hash ≡ hash_lc_loop l.hash w)
      × (header_loop s_name r l p (w ++ tail) ≡ header_loop s_name r' l' (p + length w) tail)
unfolding hash_lc_loop
name_loop r l p [] tail h =
    (r, l, Same-refl r, refl, ap (λ n. header_loop s_name r l n tail) (omega arith))
name_loop r l p (c ∷ w) tail h =
    let (r', l', same, hash, run) = name_loop (named r l c) (hashed l c) (p + 1) w tail h.1 in
    (
      r',
      l',
      record { header = same.header; name = same.name; invalid = same.invalid; value = same.value },
      hash ∙ ap (λ k. hash_lc_loop (hash_step l.hash k) w) (lowcase-tolower c h.0),
      header_loop-next s_name r l p c (w ++ tail) (name_byte r l p c h.0)
          ∙ run
          ∙ ap (λ n. header_loop s_name r' l' n tail) (omega arith),
    )

-- a byte of a value
abbrev pub ValueByte : ℕ → Type 0
ValueByte c = (c ≢ cr) × (c ≢ lf) × (c ≢ 0)

abbrev pub AllValue : List ℕ → Type 0
AllValue [] = Unit
AllValue (c ∷ cs) = ValueByte c × AllValue cs

-- the state behind the byte `c` of a value
abbrev behind : ℕ → HeaderState
behind c = if c == b' ' then s_space_after_value else s_value

-- the last byte of `c` and those that follow
abbrev pub last_of : ℕ → List ℕ → ℕ
last_of c [] = c
last_of c (d ∷ ds) = last_of d ds

-- a space behind a byte that is none ends the value for now
abbrev valued : HttpRequest → ℕ → ℕ → ℕ → HttpRequest
valued r p c d = if c == b' ' then r else if d == b' ' then end_value r p else r

value_byte :
    (r : HttpRequest) (l : Locals) (p c d : ℕ)
    → ValueByte d
    → header_step (behind c) r l p d ≡ next (behind d) (valued r p c d) l
unfolding header_step header_value header_space_after_value
value_byte r l p c d h = ground arith

valued-Same : (r : HttpRequest) (p c d : ℕ) → Same r (valued r p c d)
valued-Same r p c d = record {
  header = ground arith;
  name = ground arith;
  invalid = ground arith;
  value = ground arith;
}

value_loop :
    (r : HttpRequest) (l : Locals) (p c : ℕ) (v tail : List ℕ)
    → AllValue v
    → (r' : HttpRequest) × Same r r'
      × (header_loop (behind c) r l p (v ++ tail)
          ≡ header_loop (behind (last_of c v)) r' l (p + length v) tail)
value_loop r l p c [] tail h =
    (r, Same-refl r, ap (λ n. header_loop (behind c) r l n tail) (omega arith))
value_loop r l p c (d ∷ v) tail h =
    let (r', same, run) = value_loop (valued r p c d) l (p + 1) d v tail h.1 in
    (
      r',
      Same-trans (valued-Same r p c d) same,
      header_loop-next (behind c) r l p d (v ++ tail) (value_byte r l p c d h.0)
          ∙ run
          ∙ ap (λ n. header_loop (behind (last_of d v)) r' l n tail) (omega arith),
    )

-- the request and the local variables behind the first byte of a name, at `p`
abbrev begun : HttpRequest → ℕ → ℕ → HttpRequest
begun r p x = record r {
  header_name = record { p = some p; len = r.header_name.len };
  invalid_header = 0;
  lowcase_header = set r.lowcase_header 0 (lowcase x);
}

abbrev begun_locals : ℕ → Locals
begun_locals x = record { hash = hash_step 0 (lowcase x); i = 1 }

first_byte :
    (r : HttpRequest) (l : Locals) (p x : ℕ)
    → NameByte x
    → header_step s_start r l p x ≡ next s_name (begun r p x) (begun_locals x)
unfolding header_step header_start lowcase
first_byte r l p x k = ground (arith, k)

colon :
    (r : HttpRequest) (l : Locals) (p : ℕ)
    → header_step s_name r l p b':' ≡ next s_space_before_value (end_name r p) l
unfolding header_step header_name lowcase
colon r l p = refl

space :
    (r : HttpRequest) (l : Locals) (p : ℕ)
    → header_step s_space_before_value r l p b' ' ≡ next s_space_before_value r l
unfolding header_step header_space_before_value
space r l p = refl

line_feed : (r : HttpRequest) (l : Locals) (p : ℕ) → header_step s_almost_done r l p lf ≡ done r l
unfolding header_step header_almost_done
line_feed r l p = refl

-- the first byte of a value, at `p`
abbrev valuing : HttpRequest → ℕ → HttpRequest
valuing r p = record r { header_value = record { p = some p; len = r.header_value.len } }

first_value :
    (r : HttpRequest) (l : Locals) (p c : ℕ)
    → ValueByte c
    → c ≢ b' '
    → header_step s_space_before_value r l p c ≡ next (behind c) (valuing r p) l
unfolding header_step header_space_before_value
first_value r l p c h k = ground arith

carriage_return :
    (r : HttpRequest) (l : Locals) (p c : ℕ)
    → c ≢ b' '
    → header_step (behind c) r l p cr ≡ next s_almost_done (end_value r p) l
unfolding header_step header_value
carriage_return r l p c h = ground arith

module _ (r : HttpRequest) (l : Locals) (p x : ℕ) (w : List ℕ) (c : ℕ) (v rest : List ℕ)
    (x_name : NameByte x) (w_name : AllName w) (c_value : ValueByte c) (c_full : c ≢ b' ')
    (v_value : AllValue v) (full : last_of c v ≢ b' ') where
  -- what the request holds behind the line
  pub record Looped (bytes : List ℕ) : Type 0 where
    pub result : HttpRequest
    pub run : header_loop s_start r l p bytes ≡ line result
    pub buffer : result.header ≡ record r.header { pos = p + (length w + length v + 6) }
    pub start : result.state ≡ header_code s_start
    pub invalid : result.invalid_header ≡ 0
    pub name : result.header_name ≡ record { p = some p; len = suc (length w) }
    pub value : result.header_value ≡ record { p = some (p + length w + 3); len = suc (length v) }
    pub hash : result.header_hash ≡ hash_key_lc (x ∷ w)

  pub looped : Looped (print_header (x ∷ w) (c ∷ v) rest)
  unfolding hash_key_lc hash_lc_loop
  looped =
      let value_tail : List ℕ = cr ∷ lf ∷ rest in
      let name_tail : List ℕ = b':' ∷ b' ' ∷ ((c ∷ v) ++ value_tail) in
      let r1 : HttpRequest = begun r p x in
      let (r2, l2, same2, hash2, run2) = name_loop r1 (begun_locals x) (p + 1) w name_tail w_name in
      let q : ℕ = p + 1 + length w in
      let r3 : HttpRequest = valuing (end_name r2 q) (q + 1 + 1) in
      let (r4, same4, run4) = value_loop r3 l2 (q + 1 + 1 + 1) c v value_tail v_value in
      let e : ℕ = q + 1 + 1 + 1 + length v in
      record {
        result = leave s_start (end_value r4 e) l2 (e + 1 + 1);
        run =
            header_loop-next s_start r l p x (w ++ name_tail) (first_byte r l p x x_name)
            ∙ run2
            ∙ header_loop-next s_name r2 l2 q b':' (b' ' ∷ ((c ∷ v) ++ value_tail)) (colon r2 l2 q)
            ∙ header_loop-next s_space_before_value (end_name r2 q) l2 (q + 1) b' '
                ((c ∷ v) ++ value_tail) (space (end_name r2 q) l2 (q + 1))
            ∙ header_loop-next s_space_before_value (end_name r2 q) l2 (q + 1 + 1) c
                (v ++ value_tail) (first_value (end_name r2 q) l2 (q + 1 + 1) c c_value c_full)
            ∙ run4
            ∙ header_loop-next (behind (last_of c v)) r4 l2 e cr (lf ∷ rest)
                (carriage_return r4 l2 e (last_of c v) full)
            ∙ header_loop-done s_almost_done (end_value r4 e) l2 (e + 1) lf rest
                (line_feed (end_value r4 e) l2 (e + 1));
        buffer =
            buffer_eq (ap (λ b. b.mem) (same4.header ∙ same2.header))
              (ap (λ b. b.size) (same4.header ∙ same2.header)) (omega arith);
        start = refl;
        invalid = same4.invalid ∙ same2.invalid;
        name =
            same4.name
            ∙ str_eq (ap (λ s. s.p) same2.name) (ap (λ s. q - addr s.p) same2.name ∙ omega arith);
        value =
            str_eq (same4.value ∙ ap some (omega arith))
              (ap (λ a. e - addr a) same4.value ∙ omega arith);
        hash = hash2 ∙ ap (λ k. hash_lc_loop (hash_step 0 k) w) (lowcase-tolower x x_name);
      }
