-- ===== src/Http/Request/Headers.antt =====
-- `http_process_request_header` of src/http/request.c returns, for handlers that keep the buffer.
use mathlib.Core.Path.{subst}
use cserv.Prelude.{
  ℕ, zero, suc, ◌+◌, ◌-◌, ◌≤◌, ◌<◌, ◌≡◌, refl, sym, ap, ◌∙◌, arith, List, length, length-append,
}
use cserv.Http.Types.{Buffer, last, HttpRequest}
use cserv.Http.Header.State.{HeaderState, s_start, header_code}
use cserv.Http.Header.Loop.{HeaderResult, line, all, http_parse_request_header}
use cserv.Http.Header.Bounds.{Inv, stored, http_parse_request_header-Inv}
use cserv.Http.Line.Chunks.{append}
use cserv.Http.Request.Atoi.{Handled, handled, refused}
use cserv.Http.Request.Handlers.{HeaderTable, handle_http_request_header}
use cserv.Http.Request.Recv.{Event, received, recv_error, recv_http_request}
use cserv.Http.Request.Arrivals.{recv-cases, arrived_is, failed_is}
use cserv.Http.Request.Process.{
  Processed, processed, process_error, out_of_fuel, http_process_request_header,
}

-- what a handler must leave alone
pub record Kept (r r' : HttpRequest) : Type 0 where
  pub last_kept : last r'.header ≡ last r.header
  pub size_kept : r'.header.size ≡ r.header.size
  pub pos_kept : r'.header.pos ≡ r.header.pos
  pub state_kept : r'.state ≡ r.state
  pub table_kept : r'.lowcase_header ≡ r.lowcase_header
  pub index_kept : r'.lowcase_index ≡ r.lowcase_index

-- the buffer is as long as before, and `pos` and `last` are in it
abbrev pub Returned : ℕ → Processed → Type 0
Returned size (processed r later) =
    (r.header.size ≡ size) × (r.header.pos ≤ last r.header) × (last r.header ≤ size)
Returned size (process_error n) = Unit
Returned size out_of_fuel = ⊥

data HeaderCases (t : HeaderResult) : Type 0 where
  line_is : (r : HttpRequest) → t ≡ line r → HeaderCases t
  all_is : (r : HttpRequest) → t ≡ all r → HeaderCases t
  more_is : (r : HttpRequest) → t ≡ HeaderResult.more r → HeaderCases t
  error_is : (n : ℕ) → t ≡ HeaderResult.error n → HeaderCases t

header-cases : (t : HeaderResult) → HeaderCases t
header-cases (line r) = line_is r refl
header-cases (all r) = all_is r refl
header-cases (HeaderResult.more r) = more_is r refl
header-cases (HeaderResult.error n) = error_is n refl

data HandledCases (t : Handled) : Type 0 where
  handled_is : (r : HttpRequest) → t ≡ handled r → HandledCases t
  refused_is : t ≡ refused → HandledCases t

handled-cases : (t : Handled) → HandledCases t
handled-cases (handled r) = handled_is r refl
handled-cases refused = refused_is refl

module _ (ht : HeaderTable) (fuel : ℕ) (r r1 : HttpRequest) (events : List Event) where
  header-all :
      http_parse_request_header r ≡ all r1
      → http_process_request_header ht (suc fuel) r events ≡ processed r1 events
  unfolding http_process_request_header
  header-all e = ground (arith, e)

  header-error :
      {n : ℕ}
      → http_parse_request_header r ≡ HeaderResult.error n
      → http_process_request_header ht (suc fuel) r events ≡ process_error 3
  unfolding http_process_request_header
  header-error e = ground (arith, e)

  module _ (e : http_parse_request_header r ≡ line r1) where
    header-handled :
        {r2 : HttpRequest}
        → handle_http_request_header ht r1 ≡ handled r2
        → http_process_request_header ht (suc fuel) r events
          ≡ http_process_request_header ht fuel r2 events
    unfolding http_process_request_header
    header-handled f = ground (arith, e, f)

    header-refused :
        handle_http_request_header ht r1 ≡ refused
        → http_process_request_header ht (suc fuel) r events ≡ process_error 1
    unfolding http_process_request_header
    header-refused f = ground (arith, e, f)

  module _ (e : http_parse_request_header r ≡ HeaderResult.more r1) where
    header-received :
        {b : Buffer} {later : List Event}
        → recv_http_request r1.header events ≡ received b later
        → http_process_request_header ht (suc fuel) r events
          ≡ http_process_request_header ht fuel (record r1 { header = b }) later
    unfolding http_process_request_header
    header-received f = ground (arith, e, f)

    header-failed :
        {n : ℕ}
        → recv_http_request r1.header events ≡ recv_error n
        → http_process_request_header ht (suc fuel) r events ≡ process_error 2
    unfolding http_process_request_header
    header-failed f = ground (arith, e, f)

Inv-append :
    (s : HeaderState) (r : HttpRequest) (ys : List ℕ) (p : ℕ)
    → Inv s r (stored r) p
    → Inv s (append ys r) (stored r) p
Inv-append s_start r ys p h = h
Inv-append _ r ys p h = h

-- `http_process_request_header` returns, from a request for which the claims of its state hold (the
-- index into `lowcase_header` is below 32, the table has 32 bytes, and the strings recorded so far
-- lie inside the bytes read), when every handler of the table leaves the size of the buffer, `pos`,
-- `last`, the state and the table of small letters alone, given more fuel than the bytes behind
-- `pos` and the bytes behind `last` that the buffer has. When it succeeds, `pos` and `last` are still
-- inside the buffer, and in that order. That the index is below 32 is a condition on the request:
-- `http_request_handler` does not set it.
pub http_process_request_header-Returned :
    (ht : HeaderTable)
    → ((r r' : HttpRequest) → handle_http_request_header ht r ≡ handled r' → Kept r r')
    → (fuel : ℕ) (s : HeaderState) (r : HttpRequest) (events : List Event) → r.state ≡ header_code s
    → r.header.pos ≤ last r.header
    → Inv s r (stored r) r.header.pos
    → last r.header ≤ r.header.size
    → (r.header.size - r.header.pos) + (r.header.size - last r.header) < fuel
    → Returned r.header.size (http_process_request_header ht fuel r events)
http_process_request_header-Returned ht keeps zero s r events st le h fit f = absurd (omega arith)
http_process_request_header-Returned ht keeps (suc fuel) s r events st le h fit f =
    let inv = http_parse_request_header-Inv s r st le h in
    elim (header-cases (http_parse_request_header r)) [
      | error_is n e ↦ rw (header-error ht fuel r r events e) tt
      | all_is r1 e ↦
          let (buf, lt, le1, tab) = rw e at inv in
          let m = ap (λ (b : Buffer). last b) buf in
          rw (header-all ht fuel r r1 events e)
            (ap (λ (b : Buffer). b.size) buf, omega arith, omega arith)
      | line_is r1 e ↦ elim (handled-cases (handle_http_request_header ht r1)) [
        | refused_is g ↦ rw (header-refused ht fuel r r1 events e g) tt
        | handled_is r2 g ↦
            let (buf, lt, le1, st1, (tab, idx, spans)) = rw e at inv in
            let m = ap (λ (b : Buffer). last b) buf in
            let z = ap (λ (b : Buffer). b.size) buf in
            let k = keeps r1 r2 g in
            let km = k.last_kept in
            let kz = k.size_kept in
            let kp = k.pos_kept in
            let ki = k.index_kept in
            rw (header-handled ht fuel r r1 events e g) (
              subst (λ n. Returned n (http_process_request_header ht fuel r2 events)) (kz ∙ z)
                (http_process_request_header-Returned ht keeps fuel s_start r2 events
                  (k.state_kept ∙ st1) (omega arith) (ap length k.table_kept ∙ tab, omega arith, tt)
                  (omega arith) (omega arith)))
      ]
      | more_is r1 e ↦
          let (buf, (s1, st1, inv1)) = rw e at inv in
          let m = ap (λ (b : Buffer). last b) buf in
          let z = ap (λ (b : Buffer). b.size) buf in
          let q : r1.header.pos ≡ last r.header = ap (λ (b : Buffer). b.pos) buf in
          elim (recv-cases r1.header events (omega arith)) [
            | failed_is n _ g ↦ rw (header-failed ht fuel r r1 events e g) tt
            | arrived_is ys later some_ys fits _ g ↦
                let grown = length-append r1.header.mem ys in
                rw (header-received ht fuel r r1 events e g) (
                  subst (λ n. Returned n (http_process_request_header ht fuel (append ys r1) later))
                    z
                    (http_process_request_header-Returned ht keeps fuel s1 (append ys r1) later st1
                      (omega arith)
                      (Inv-append s1 r1 ys r1.header.pos
                        (subst (Inv s1 r1 (stored r1)) (sym q) inv1))
                      (omega arith) (omega arith)))
          ]
    ]
