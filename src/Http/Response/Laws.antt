-- ===== src/Http/Response/Laws.antt =====
-- What src/http/response.c sends for each status code.
use cserv.Prelude.{
  ℕ, ◌+◌, ◌/◌, ◌%◌, ◌≤◌, ◌<◌, ◌≡◌, refl, ap, ◌∙◌, sym, Bool, true, false, ◌&&◌, Option, none, some,
  [], ◌∷◌, ◌++◌, leb, ◌==◌, arith, take, length, codes, all_below, all_below_sound, Option-cases,
  Bool-cases, inl, inr, ◌⊎◌,
}
use mathlib.Core.List.{append-nil, append_assoc}
use native.Mathlib.Decide.{dec_lt}
use cserv.Http.Types.{HttpRequest}
use cserv.Http.Response.Status.{Bytes, http_status_lines, status_index, get_http_status_line}
use cserv.Http.Response.Pages.{
  crlf, http_error_pages, http_error_200_page, error_page_index, get_http_error_page,
}
use cserv.Http.Response.Finalize.{
  entry_bytes, finalize-none, finalize-some, http_error_header, response_body, response_bytes,
  http_finalize_request,
}

-- an index that is used, if there is one, lies inside an array of that length
abbrev pub Within : ℕ → Option ℕ → Type 0
Within size none = Unit {0}
Within size (some i) = i < size

status_index-lt : (c i : ℕ) → status_index c ≡ some i → i < length http_status_lines
unfolding status_index
status_index-lt c i h = ground arith

error_page_index-lt : (c j : ℕ) → error_page_index c ≡ some j → j < length http_error_pages
unfolding error_page_index
error_page_index-lt c j h = ground arith

within_of_lt : (size : ℕ) (o : Option ℕ) → ((i : ℕ) → o ≡ some i → i < size) → Within size o
within_of_lt size none h = tt
within_of_lt size (some i) h = h i refl

-- For every code, an index that the lookup of the status line uses lies inside the array of status
-- lines, and an index that the lookup of the error page uses lies inside the array of error pages;
-- each holds by itself, whether or not the other lookup finds anything.
pub indices-Within :
    (ret_code : ℕ)
    → Within (length http_status_lines) (status_index ret_code)
      × Within (length http_error_pages) (error_page_index ret_code)
indices-Within c = (
  within_of_lt (length http_status_lines) (status_index c) (status_index-lt c),
  within_of_lt (length http_error_pages) (error_page_index c) (error_page_index-lt c),
)

-- the three decimal digits of a code
abbrev pub digits3 : ℕ → Bytes
digits3 c = (b'0' + c / 100) ∷ (b'0' + c / 10 % 10) ∷ (b'0' + c % 10) ∷ []

same_bytes : Bytes → Bytes → Bool
same_bytes [] [] = true
same_bytes (x ∷ xs) (y ∷ ys) = x == y && same_bytes xs ys
same_bytes _ _ = false

same_bytes_sound : (xs ys : Bytes) → same_bytes xs ys ≡ true → xs ≡ ys
unfolding same_bytes
same_bytes_sound [] [] h = refl
same_bytes_sound [] (y ∷ ys) h = cc
same_bytes_sound (x ∷ xs) [] h = cc
same_bytes_sound (x ∷ xs) (y ∷ ys) h = ground (arith, same_bytes_sound xs ys)

starts_right : ℕ → Option Bytes → Bool
starts_right c none = true
starts_right c (some line) = same_bytes (take 3 line) (digits3 c)

starts_table : all_below 508 (λ c. starts_right c (get_http_status_line c)) ≡ true
unfolding all_below starts_right same_bytes get_http_status_line
starts_table = refl

status_line-lt :
    (ret_code : ℕ) (line : Bytes) → get_http_status_line ret_code ≡ some line → ret_code < 508
unfolding get_http_status_line
status_line-lt ret_code line h = ground arith

-- The status line that a code gets begins with the three digits of that code.
pub get_http_status_line-digits3 :
    (ret_code : ℕ) (line : Bytes)
    → get_http_status_line ret_code ≡ some line
    → take 3 line ≡ digits3 ret_code
unfolding starts_right
get_http_status_line-digits3 c line h = same_bytes_sound (take 3 line) (digits3 c) (
    rw h at (
      all_below_sound 508 (λ c. starts_right c (get_http_status_line c)) c starts_table
        (status_line-lt c line h)))

abbrev fits : ℕ → Option Bytes → Bool
fits c none = true
fits c (some line) = leb (length (response_bytes line c)) 400

fits_table : all_below 508 (λ c. fits c (get_http_status_line c)) ≡ true
unfolding all_below response_bytes response_body get_http_status_line get_http_error_page
fits_table = refl

-- Whatever the code, a response has at most 400 bytes, and `pos` is then behind its last byte. The
-- space behind the request structure is larger: 1024 bytes less the structure, at the least.
pub http_finalize_request-length :
    (r : HttpRequest) (ret_code : ℕ) (out : Bytes)
    → (http_finalize_request r ret_code).0 ≡ some out
    → (length out ≤ 400) × ((http_finalize_request r ret_code).1.header.pos ≡ length out)
http_finalize_request-length r c out h = elim (Option-cases (get_http_status_line c)) [
  | inl e ↦ cc (sym h ∙ ap (λ (x : Option Bytes × HttpRequest). x.0) (finalize-none r c e))
  | inr (line, e) ↦
      let f = finalize-some r c line e in
      let sent : out ≡ response_bytes line c =
        cc (sym h ∙ ap (λ (x : Option Bytes × HttpRequest). x.0) f) in
      let fit = rw e at (
        all_below_sound 508 (λ c. fits c (get_http_status_line c)) c fits_table
          (status_line-lt c line e)) in
      (rw sent (ground (arith, fit)), rw (f, sent))
]

-- the bytes in front of the body
abbrev pub response_head : Bytes → Bytes
response_head line = codes "HTTP/1.1 " ++ (line ++ (crlf ++ http_error_header))

response_bytes-head :
    (line : Bytes) (c : ℕ) → response_bytes line c ≡ response_head line ++ response_body c
unfolding response_bytes
response_bytes-head line c =
    ap (◌++◌ (codes "HTTP/1.1 "))
      (sym (append_assoc line (crlf ++ http_error_header) (response_body c)))

response_body-nil : (c : ℕ) → 201 ≤ c → c < 301 → response_body c ≡ []
unfolding response_body get_http_error_page error_page_index
response_body-nil c h k = ground arith

no_line_between :
    (c : ℕ) (line : Bytes)
    → get_http_status_line c ≡ some line
    → ((c < 308) ⊎ (400 ≤ c)) × ((c < 417) ⊎ (500 ≤ c))
unfolding get_http_status_line
no_line_between c line h = (
  elim (dec_lt c 308) [ yes p ↦ inl p | no p ↦ inr (ground arith) ],
  elim (dec_lt c 417) [ yes p ↦ inl p | no p ↦ inr (ground arith) ],
)

response_body-crlf :
    (c : ℕ)
    → c < 508
    → ((c < 308) ⊎ (400 ≤ c)) × ((c < 417) ⊎ (500 ≤ c))
    → (c ≡ 200) ⊎ (301 ≤ c)
    → (body : Bytes) × (response_body c ≡ crlf ++ body)
response_body-crlf c h k l = elim (Bool-cases (c == 200)) [
  | inl e ↦ (http_error_200_page, unfold response_body in rw (response_body, e))
  | inr e ↦ elim (Option-cases (get_http_error_page c)) [
    | inl q ↦ absurd (unfold get_http_error_page in ground arith)
    | inr (p, q) ↦ (entry_bytes p, unfold response_body in rw (response_body, e, q))
  ]
]

-- From 417 to 499 no code has a status line, and nothing is sent, although 494 to 498 have pages.
pub http_finalize_request-silent :
    (r : HttpRequest) (ret_code : ℕ)
    → 417 ≤ ret_code
    → ret_code < 500
    → http_finalize_request r ret_code ≡ (none, r)
http_finalize_request-silent r c h k =
    finalize-none r c (unfold get_http_status_line in ground arith)

-- The header lines are ended by an empty line for 200 and for every code from 301 on that has a
-- status line: the response is the head, that line, and a page that may be empty.
pub http_finalize_request-terminated :
    (r : HttpRequest) (ret_code : ℕ) (line : Bytes)
    → get_http_status_line ret_code ≡ some line
    → (ret_code ≡ 200) ⊎ (301 ≤ ret_code)
    → (body : Bytes) × ((http_finalize_request r ret_code).0
        ≡ some (response_head line ++ (crlf ++ body)))
http_finalize_request-terminated r c line h k =
    let (body, e) = response_body-crlf c (status_line-lt c line h) (no_line_between c line h) k in
    (
      body,
      rw (finalize-some r c line h)
          (ap some (response_bytes-head line c ∙ ap (◌++◌ (response_head line)) e)),
    )

-- For the other codes of the 2xx range no empty line is sent: the response stops behind the CRLF of
-- its last header line.
pub http_finalize_request-unterminated :
    (r : HttpRequest) (ret_code : ℕ) (line : Bytes)
    → get_http_status_line ret_code ≡ some line
    → 201 ≤ ret_code
    → ret_code < 301
    → (http_finalize_request r ret_code).0 ≡ some (response_head line)
http_finalize_request-unterminated r c line h k l = rw (finalize-some r c line h) (
    ap some (
      response_bytes-head line c
      ∙ ap (◌++◌ (response_head line)) (response_body-nil c k l)
      ∙ append-nil (response_head line)))
