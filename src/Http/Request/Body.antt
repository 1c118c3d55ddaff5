-- ===== src/Http/Request/Body.antt =====
-- `http_process_request_body` of src/http/request.c: it returns, with exactly the bytes of the
-- content.
use mathlib.Core.List.{append_assoc, append-nil}
use cserv.Prelude.{
  ℕ, zero, suc, ◌+◌, ◌-◌, ◌≤◌, ◌<◌, ◌≡◌, refl, sym, ap, ◌∙◌, arith, false, inl, inr, some, List, [],
  ◌∷◌, ◌++◌, length, length-append, Bool-cases, ◌==◌, take, drop, take_of_le, drop_of_le,
}
use cserv.Http.Types.{Buffer, last, HttpRequest}
use cserv.Http.Line.Chunks.{append}
use cserv.Http.Request.Recv.{Event, arrived, received, recv_error, recv_http_request, recv_events}
use cserv.Http.Request.Arrivals.{recv-cases, arrived_is, failed_is}
use cserv.Http.Request.Process.{
  Processed, processed, process_error, out_of_fuel, http_process_request_body,
}

-- the request once its content is complete
abbrev pub with_content : HttpRequest → HttpRequest
with_content r = record r { content = record { p = some r.header.pos; len = r.content_len } }

-- what is left to receive
abbrev buffered : HttpRequest → ℕ
buffered r = last r.header - r.header.pos

module _ (fuel : ℕ) (r : HttpRequest) (events : List Event) where
  body_complete :
      buffered r ≡ r.content_len
      → http_process_request_body (suc fuel) r events ≡ processed (with_content r) events
  unfolding http_process_request_body
  body_complete e = ground (arith, e)

  module _ (wants : (buffered r == r.content_len) ≡ false) where
    body_failed :
        {n : ℕ}
        → recv_http_request r.header events ≡ recv_error n
        → http_process_request_body (suc fuel) r events ≡ process_error 1
    unfolding http_process_request_body
    body_failed e = ground (arith, e, wants)

    body_received :
        {b : Buffer} {later : List Event}
        → recv_http_request r.header events ≡ received b later
        → http_process_request_body (suc fuel) r events
          ≡ http_process_request_body fuel (record r { header = b }) later
    unfolding http_process_request_body
    body_received e = ground (arith, e, wants)

abbrev pub Content : HttpRequest → Processed → Type 0
Content r (processed r' later) =
    (ys : List ℕ) × (last r.header + length ys ≤ r.header.size)
    × (last r.header + length ys - r.header.pos ≡ r.content_len)
    × (r' ≡ with_content (append ys r))
Content r (process_error n) = n ≡ 1
Content r out_of_fuel = ⊥

Content-append :
    (r : HttpRequest) (ys : List ℕ) (t : Processed) → Content (append ys r) t → Content r t
Content-append r ys (processed r' later) (zs, fits, size, e) =
    let n = length-append ys zs in
    let m = length-append r.header.mem ys in
    (
      ys ++ zs,
      omega arith,
      omega arith,
      e
          ∙ ap (λ m. with_content (record r { header = record r.header { mem = m } }))
              (append_assoc r.header.mem ys zs),
    )
Content-append r ys (process_error n) e = e
Content-append r ys out_of_fuel e = absurd e

-- `http_process_request_body` returns, given more fuel than there are free bytes in the buffer. It
-- succeeds only when exactly the bytes of the content are between `pos` and `last`, and then the
-- request is the old one with the bytes received and the content set to them; every failure is 1.
pub http_process_request_body-Content :
    (fuel : ℕ) (r : HttpRequest) (events : List Event)
    → last r.header ≤ r.header.size
    → r.header.size - last r.header < fuel
    → Content r (http_process_request_body fuel r events)
http_process_request_body-Content zero r events fit f = absurd (omega arith)
http_process_request_body-Content (suc fuel) r events fit f =
    elim (Bool-cases (buffered r == r.content_len)) [
      | inl e ↦
          let same : buffered r ≡ r.content_len = grind (arith, e) in
          rw (body_complete fuel r events same) (
            [],
            omega arith,
            omega arith,
            ap (λ m. with_content (record r { header = record r.header { mem = m } }))
                (sym (append-nil r.header.mem)),
          )
      | inr wants ↦ elim (recv-cases r.header events fit) [
        | failed_is n _ e ↦ rw (body_failed fuel r events wants e) refl
        | arrived_is ys later some_ys fits _ e ↦
            let m = length-append r.header.mem ys in
            rw (body_received fuel r events wants e) (
              Content-append r ys (http_process_request_body fuel (append ys r) later) (
                http_process_request_body-Content fuel (append ys r) later (omega arith)
                  (omega arith)))
      ]
    ]

-- When more bytes than the content has are in the buffer already, `http_process_request_body` fails
-- whatever the client does, given more fuel than there are free bytes in the buffer.
pub http_process_request_body-overlong :
    (fuel : ℕ) (r : HttpRequest) (events : List Event)
    → last r.header ≤ r.header.size
    → r.header.size - last r.header < fuel
    → r.header.pos + r.content_len < last r.header
    → http_process_request_body fuel r events ≡ process_error 1
http_process_request_body-overlong fuel r events fit f over =
    only_error (http_process_request_body fuel r events)
      (http_process_request_body-Content fuel r events fit f)
  where
    only_error : (t : Processed) → Content r t → t ≡ process_error 1
    only_error (processed r' later) (ys, fits, size, e) = absurd (omega arith)
    only_error (process_error n) e = ap process_error e
    only_error out_of_fuel e = absurd e

-- the client sends these pieces, each a first byte and those behind it
abbrev pub pieces : List (ℕ × List ℕ) → List Event
pieces [] = []
pieces ((c, cs) ∷ rest) = arrived c cs ∷ pieces rest

abbrev pub bytes_of : List (ℕ × List ℕ) → List ℕ
bytes_of [] = []
bytes_of ((c, cs) ∷ rest) = (c ∷ cs) ++ bytes_of rest

recv-fitting :
    (b : Buffer) (c : ℕ) (cs : List ℕ) (events : List Event)
    → last b + length (c ∷ cs) ≤ b.size
    → recv_http_request b (arrived c cs ∷ events)
      ≡ received (record b { mem = b.mem ++ c ∷ cs }) events
unfolding recv_http_request recv_events
recv-fitting b c cs events fits =
    let room : (last b == b.size) ≡ false = ground arith in
    let taken : take (b.size - last b) (c ∷ cs) ≡ c ∷ cs =
      take_of_le (b.size - last b) (c ∷ cs) (omega arith) in
    let dropped : drop (b.size - last b) (c ∷ cs) ≡ [] =
      drop_of_le (b.size - last b) (c ∷ cs) (omega arith) in
    rw (room, taken, dropped) refl

-- `http_process_request_body` succeeds when the client sends the bytes that are missing, cut into
-- pieces in any way, and they fit; the fuel exceeds the number of pieces. The content then is all
-- the bytes behind `pos`, and nothing of what follows is received.
pub http_process_request_body-pieces :
    (fuel : ℕ) (r : HttpRequest) (chunks : List (ℕ × List ℕ))
    → length chunks < fuel
    → r.header.pos ≤ last r.header
    → last r.header + length (bytes_of chunks) ≤ r.header.size
    → last r.header + length (bytes_of chunks) ≡ r.header.pos + r.content_len
    → http_process_request_body fuel r (pieces chunks)
      ≡ processed (with_content (append (bytes_of chunks) r)) []
http_process_request_body-pieces zero r chunks f le fits size = absurd (omega arith)
http_process_request_body-pieces (suc fuel) r [] f le fits size =
    body_complete fuel r [] (omega arith)
    ∙ ap (λ m. processed (with_content (record r { header = record r.header { mem = m } })) [])
        (sym (append-nil r.header.mem))
http_process_request_body-pieces (suc fuel) r ((c, cs) ∷ rest) f le fits size =
    let n = length-append (c ∷ cs) (bytes_of rest) in
    let m = length-append r.header.mem (c ∷ cs) in
    let wants : (buffered r == r.content_len) ≡ false = grind arith in
    body_received fuel r (arrived c cs ∷ pieces rest) wants
      (recv-fitting r.header c cs (pieces rest) (omega arith))
    ∙ http_process_request_body-pieces fuel (append (c ∷ cs) r) rest (omega arith) (omega arith)
        (omega arith) (omega arith)
    ∙ ap (λ m. processed (with_content (record r { header = record r.header { mem = m } })) [])
        (append_assoc r.header.mem (c ∷ cs) (bytes_of rest))
