-- ===== src/Http/Request/LineWhole.antt =====
-- `http_process_request_line` of src/http/request.c returns, and parses what it has received as one
-- piece, however the bytes arrive.
use mathlib.Core.List.{append_assoc, append-nil}
use mathlib.Core.Path.{subst}
use cserv.Prelude.{
  ℕ, zero, suc, ◌+◌, ◌-◌, ◌≤◌, ◌<◌, ◌≡◌, refl, sym, ap, ◌∙◌, arith, ◌⊎◌, inl, inr, List, [], ◌++◌,
  length, length-append,
}
use cserv.Http.Types.{Buffer, last, HttpRequest}
use cserv.Http.Line.State.{LineState, line_code}
use cserv.Http.Line.Loop.{LineResult, complete, http_parse_request_line}
use cserv.Http.Line.Bounds.{Inv, Inv-stored, http_parse_request_line-Parsed}
use cserv.Http.Line.Chunks.{append, resume, http_parse_request_line-append, parse-KeepsBuffer}
use cserv.Http.Request.Recv.{Event, received, recv_error, recv_http_request}
use cserv.Http.Request.Arrivals.{sent, recv-cases, arrived_is, failed_is}
use cserv.Http.Request.Process.{
  Processed, processed, process_error, out_of_fuel, http_process_request_line,
}

-- the bytes `ys` were received behind those of `r`, and fit
abbrev pub Fits : HttpRequest → List ℕ → Type 0
Fits r ys = (1 ≤ length ys) × (last r.header + length ys ≤ r.header.size)

-- nothing was received, or the parser asks for more behind the bytes `ys`
abbrev pub Wants : HttpRequest → List ℕ → Type 0
Wants r ys =
    (ys ≡ []) ⊎ ((r1 : HttpRequest) × (http_parse_request_line (append ys r) ≡ LineResult.more r1))

-- the line is not complete, and either the buffer is full or the client sends nothing more
abbrev pub Stopped : HttpRequest → List ℕ → List Event → Type 0
Stopped r ys later = Wants r ys × ((last r.header + length ys ≡ r.header.size) ⊎ (sent later ≡ []))

-- `ys` are the first bytes that the client sends, and `later` is what is still to come.
abbrev pub Whole : HttpRequest → List Event → Processed → Type 0
Whole r events (processed r' later) =
    (ys : List ℕ) × (ys ++ sent later ≡ sent events)
    × Fits r ys
    × (http_parse_request_line (append ys r) ≡ complete r')
Whole r events (process_error n) =
    (ys : List ℕ) × ((later : List Event) × (ys ++ sent later ≡ sent events)
      × (((n ≡ 1) × Stopped r ys later)
          ⊎ ((n ≡ 2)
              × Fits r ys
              × ((k : ℕ) × (http_parse_request_line (append ys r) ≡ LineResult.error k)))))
Whole r events out_of_fuel = ⊥

data ParseCases (t : LineResult) : Type 0 where
  complete_is : (r : HttpRequest) → t ≡ complete r → ParseCases t
  more_is : (r : HttpRequest) → t ≡ LineResult.more r → ParseCases t
  error_is : (n : ℕ) → t ≡ LineResult.error n → ParseCases t

parse-cases : (t : LineResult) → ParseCases t
parse-cases (complete r) = complete_is r refl
parse-cases (LineResult.more r) = more_is r refl
parse-cases (LineResult.error n) = error_is n refl

-- a run of the parser that used up the bytes `ys` and asks for more
module _ (s : LineState) (r r1 : HttpRequest) (ys : List ℕ) (st : r.state ≡ line_code s)
    (le : r.header.pos ≤ last r.header) (h : Inv s r r.header.pos) (fits : Fits r ys)
    (wants : http_parse_request_line (append ys r) ≡ LineResult.more r1) where
  more-buffer : (r1.header.mem ≡ r.header.mem ++ ys) × (r1.header.size ≡ r.header.size)
  more-buffer = rw wants at (parse-KeepsBuffer s (append ys r) st)

  more-last : last r1.header ≡ last r.header + length ys
  more-last = ap length more-buffer.0 ∙ length-append r.header.mem ys

  more-Inv :
      (r1.header.pos ≡ last r1.header)
      × ((s1 : LineState) × (r1.state ≡ line_code s1) × Inv s1 r1 r1.header.pos)
  more-Inv =
      let grown_le : r.header.pos ≤ length (r.header.mem ++ ys) =
        omega (arith, length-append r.header.mem ys) in
      let (pos, (s1, st1, inv)) = rw wants at (
        http_parse_request_line-Parsed s (append ys r) st grown_le
          (Inv-stored s r r.header.pos r.state _ h)) in
      (pos ∙ sym (ap length more-buffer.0), (s1, st1, subst (Inv s1 r1) (sym pos) inv))

  -- what the parser makes of `zs` then is what it makes of the two together
  joined :
      (zs : List ℕ)
      → http_parse_request_line (append (ys ++ zs) r) ≡ http_parse_request_line (append zs r1)
  joined zs =
      let grown_le : r.header.pos ≤ length (r.header.mem ++ ys) =
        omega (arith, length-append r.header.mem ys) in
      ap (λ m. http_parse_request_line (record r { header = record r.header { mem = m } }))
        (sym (append_assoc r.header.mem ys zs))
      ∙ http_parse_request_line-append s (append ys r) zs st grown_le
          (Inv-stored s r r.header.pos r.state _ h)
      ∙ ap (resume zs) wants

  joined-Fits : (zs : List ℕ) → Fits r1 zs → Fits r (ys ++ zs)
  joined-Fits zs f =
      let n = length-append ys zs in
      let m = more-last in let k = more-buffer.1 in (omega arith, omega arith)

  joined-Wants : (zs : List ℕ) → Wants r1 zs → Wants r (ys ++ zs)
  joined-Wants zs (inl e) = inr (
    r1,
    ap (λ z. http_parse_request_line (append z r)) (ap (λ z. ys ++ z) e ∙ append-nil ys) ∙ wants,
  )
  joined-Wants zs (inr (r2, run)) = inr (r2, joined zs ∙ run)

  joined-Stopped :
      (zs : List ℕ) (later : List Event) → Stopped r1 zs later → Stopped r (ys ++ zs) later
  joined-Stopped zs later (w, inl full) =
      let n = length-append ys zs in
      let m = more-last in let k = more-buffer.1 in (joined-Wants zs w, inl (omega (arith, full)))
  joined-Stopped zs later (w, inr e) = (joined-Wants zs w, inr e)

  module _ (events events1 : List Event) (first : ys ++ sent events1 ≡ sent events) where
    joined-sent :
        (zs : List ℕ) (later : List Event)
        → zs ++ sent later ≡ sent events1
        → (ys ++ zs) ++ sent later ≡ sent events
    joined-sent zs later e = append_assoc ys zs (sent later) ∙ ap (λ z. ys ++ z) e ∙ first

    joined-Whole : (t : Processed) → Whole r1 events1 t → Whole r events t
    joined-Whole (processed r' later) (zs, e, f, run) =
        (ys ++ zs, joined-sent zs later e, joined-Fits zs f, joined zs ∙ run)
    joined-Whole (process_error n) (zs, (later, e, inl (one, s))) =
        (ys ++ zs, (later, joined-sent zs later e, inl (one, joined-Stopped zs later s)))
    joined-Whole (process_error n) (zs, (later, e, inr (two, f, (k, run)))) = (
      ys ++ zs,
      (later, joined-sent zs later e, inr (two, joined-Fits zs f, (k, joined zs ∙ run))),
    )
    joined-Whole out_of_fuel w = absurd w

module _ (fuel : ℕ) (r : HttpRequest) (events later : List Event) (b : Buffer) where
  line-recv_error :
      {n : ℕ}
      → recv_http_request r.header events ≡ recv_error n
      → http_process_request_line (suc fuel) r events ≡ process_error 1
  unfolding http_process_request_line
  line-recv_error e = ground (arith, e)

  module _ (e : recv_http_request r.header events ≡ received b later) where
    line-complete :
        {r' : HttpRequest}
        → http_parse_request_line (record r { header = b }) ≡ complete r'
        → http_process_request_line (suc fuel) r events ≡ processed r' later
    unfolding http_process_request_line
    line-complete p = ground (arith, e, p)

    line-more :
        {r' : HttpRequest}
        → http_parse_request_line (record r { header = b }) ≡ LineResult.more r'
        → http_process_request_line (suc fuel) r events ≡ http_process_request_line fuel r' later
    unfolding http_process_request_line
    line-more p = ground (arith, e, p)

    line-error :
        {n : ℕ}
        → http_parse_request_line (record r { header = b }) ≡ LineResult.error n
        → http_process_request_line (suc fuel) r events ≡ process_error 2
    unfolding http_process_request_line
    line-error p = ground (arith, e, p)

Stopped-at_once :
    (r : HttpRequest) (events : List Event)
    → (last r.header ≡ r.header.size) ⊎ (sent events ≡ [])
    → Stopped r [] events
Stopped-at_once r events (inl full) = (inl refl, inl (omega (arith, full)))
Stopped-at_once r events (inr e) = (inl refl, inr e)

-- `http_process_request_line` returns, given more fuel than there are free bytes in the buffer and a
-- state whose claims hold, whatever the client does. What it has received is always the beginning of
-- what the client sends, unchanged. It succeeds only with the request that one call of the parser
-- makes of all the bytes received (one at least, and no more than fit), however they were cut, and
-- the events left over are the rest of what is sent. Error 2 is an error of the parser on the bytes
-- received. Every other error is 1: the parser still asks for more behind the bytes received, if
-- there are any, and the buffer is full or the client sends nothing more.
pub http_process_request_line-Whole :
    (fuel : ℕ) (s : LineState) (r : HttpRequest) (events : List Event)
    → r.state ≡ line_code s
    → r.header.pos ≤ last r.header
    → Inv s r r.header.pos
    → last r.header ≤ r.header.size
    → r.header.size - last r.header < fuel
    → Whole r events (http_process_request_line fuel r events)
http_process_request_line-Whole zero s r events st le h fit f = absurd (omega arith)
http_process_request_line-Whole (suc fuel) s r events st le h fit f =
    elim (recv-cases r.header events fit) [
      | failed_is n why e ↦
          rw (line-recv_error fuel r events events r.header e)
            ([], (events, refl, inl (refl, Stopped-at_once r events why)))
      | arrived_is ys later some_ys fits q e ↦
          elim (parse-cases (http_parse_request_line (append ys r))) [
            | complete_is r' p ↦
                rw (line-complete fuel r events later _ e p) (ys, q, (some_ys, fits), p)
            | more_is r1 p ↦
                let (pos, (s1, st1, inv)) = more-Inv s r r1 ys st le h (some_ys, fits) p in
                let m = more-last s r r1 ys st le h (some_ys, fits) p in
                let k = (more-buffer s r r1 ys st le h (some_ys, fits) p).1 in
                rw (line-more fuel r events later _ e p) (
                  joined-Whole s r r1 ys st le h (some_ys, fits) p events later q
                    (http_process_request_line fuel r1 later)
                    (http_process_request_line-Whole fuel s1 r1 later st1 (omega arith) inv
                      (omega arith) (omega arith)))
            | error_is n p ↦
                rw (line-error fuel r events later _ e p)
                  (ys, (later, q, inr (refl, (some_ys, fits), (n, p))))
          ]
    ]
