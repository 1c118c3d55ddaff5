-- ===== src/Http/Types.antt =====
-- src/util/str.h (str_t), src/util/buffer.h (struct buffer) and src/http/request.h.
-- A pointer into the request's buffer is its offset from `start`; NULL is `none`. The buffer holds
-- the bytes received so far, so `last` is their number.
use cserv.Prelude.{
  ◌++◌, drop-length_append, take-length_append, ◌≡◌, ◌∙◌, ap, ℕ, Option, none, some, List, length,
  take, drop,
}

abbrev pub Ptr : Type 0
Ptr = Option ℕ

-- the offset that a pointer stands for, NULL at 0
abbrev pub addr : Ptr → ℕ
addr none = 0
addr (some i) = i

pub record Str : Type 0 where
  pub p : Ptr
  pub len : ℕ

-- `str_init`
abbrev pub str_init : Str
str_init = record { p = none; len = 0 }

abbrev pub cr : ℕ
cr = 13

abbrev pub lf : ℕ
lf = 10

-- `mem` are the bytes from `start` up to `last`, `size` is `end - start`.
pub record Buffer : Type 0 where
  pub mem : List ℕ
  pub size : ℕ
  pub pos : ℕ

abbrev pub last : Buffer → ℕ
last b = length b.mem

-- the bytes that a `str_t` stands for
abbrev pub str_bytes : List ℕ → Str → List ℕ
str_bytes mem s = take s.len (drop (addr s.p) mem)

pub data HttpMethod : Type 0 where
  http_unknown http_get http_head http_post http_put http_delete : HttpMethod
  http_mkcol http_copy http_move http_options http_propfind : HttpMethod
  http_proppatch http_lock http_unlock http_patch http_trace : HttpMethod

-- `struct http_request`; a one-bit flag is 0 or 1.
pub record HttpRequest : Type 0 where
  pub fd : ℕ
  pub header : Buffer
  pub state : ℕ
  pub request_line : Str
  pub method_name : Str
  pub method : HttpMethod
  pub schema : Str
  pub host : Str
  pub port : Str
  pub uri : Str
  pub args : Ptr
  pub exten : Str
  pub http_protocol : Str
  pub http_major : ℕ
  pub http_minor : ℕ
  pub http_version : ℕ
  pub complex_uri : ℕ
  pub quoted_uri : ℕ
  pub plus_in_uri : ℕ
  pub space_in_uri : ℕ
  pub content_len : ℕ
  pub content : Str
  pub header_name : Str
  pub header_value : Str
  pub invalid_header : ℕ
  pub header_hash : ℕ
  pub lowcase_index : ℕ
  pub lowcase_header : List ℕ

pub str_eq : {s t : Str} → s.p ≡ t.p → s.len ≡ t.len → s ≡ t
str_eq {s} {t} e f =
    ap (λ q. record { p = q; len = s.len }) e ∙ ap (λ n. record { p = t.p; len = n }) f

pub buffer_eq : {s t : Buffer} → s.mem ≡ t.mem → s.size ≡ t.size → s.pos ≡ t.pos → s ≡ t
buffer_eq {s} {t} e f g =
    ap (λ m. record s { mem = m }) e
    ∙ ap (λ n. record s { mem = t.mem; size = n }) f
    ∙ ap (λ n. record t { pos = n }) g

-- the bytes `w` in the middle of `mem`
pub slice :
    (mem pre w more : List ℕ) (i n : ℕ)
    → mem ≡ pre ++ (w ++ more)
    → i ≡ length pre
    → n ≡ length w
    → take n (drop i mem) ≡ w
slice mem pre w more i n e f g =
    rw (e, f, g, drop-length_append pre (w ++ more), take-length_append w more)
