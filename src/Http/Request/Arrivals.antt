-- ===== src/Http/Request/Arrivals.antt =====
-- What `recv_http_request` of src/http/request.c can do to the buffer.
use mathlib.Core.Path.{subst}
use cserv.Prelude.{
  ℕ, suc, ◌+◌, ◌-◌, ◌≤◌, ◌<◌, ◌≡◌, refl, sym, arith, List, [], ◌∷◌, ◌++◌, ◌==◌, length, take, drop,
  length-take_le, Bool-cases, inl, inr, zero, ap, true, ◌∙◌, ◌⊎◌,
}
use cserv.Http.Types.{Buffer, last}
use cserv.Http.Request.Recv.{
  Event, arrived, closed, failed, keep, RecvResult, received, recv_error, recv_http_request,
  recv_events,
}

-- the bytes that the client sends before the stream ends, fails or falls silent
abbrev pub sent : List Event → List ℕ
sent [] = []
sent (arrived c cs ∷ events) = c ∷ (cs ++ sent events)
sent (closed ∷ events) = []
sent (failed ∷ events) = []

-- Either the next bytes that the client sends were appended, at least one and no more than there is
-- room for; or it failed, with a full buffer or with no bytes to come.
pub data RecvCases (b : Buffer) (events : List Event) (t : RecvResult) : Type 0 where
  arrived_is :
      (ys : List ℕ) (later : List Event)
      → 1 ≤ length ys
      → last b + length ys ≤ b.size
      → ys ++ sent later ≡ sent events
      → t ≡ received (record b { mem = b.mem ++ ys }) later
      → RecvCases b events t
  failed_is :
      (n : ℕ) → (last b ≡ b.size) ⊎ (sent events ≡ []) → t ≡ recv_error n → RecvCases b events t

take-append-drop : (n : ℕ) (xs ys : List ℕ) → take n xs ++ (drop n xs ++ ys) ≡ xs ++ ys
take-append-drop zero xs ys = refl
take-append-drop (suc n) [] ys = refl
take-append-drop (suc n) (x ∷ xs) ys = ap (◌∷◌ x) (take-append-drop n xs ys)

sent-keep : (cs : List ℕ) (events : List Event) → sent (keep cs events) ≡ cs ++ sent events
sent-keep [] events = refl
sent-keep (c ∷ cs) events = refl

length-take_suc : (n c : ℕ) (cs : List ℕ) → 1 ≤ n → 1 ≤ length (take n (c ∷ cs))
length-take_suc zero c cs h = absurd (omega arith)
length-take_suc (suc n) c cs h = omega arith

recv_events-cases :
    (b : Buffer) (events : List Event) → last b < b.size → RecvCases b events (recv_events b events)
unfolding recv_events
recv_events-cases b [] h = failed_is 2 (inr refl) refl
recv_events-cases b (failed ∷ events) h = failed_is 3 (inr refl) refl
recv_events-cases b (closed ∷ events) h = failed_is 4 (inr refl) refl
recv_events-cases b (arrived c cs ∷ events) h =
    let room = b.size - last b in
    arrived_is (take room (c ∷ cs)) (keep (drop room (c ∷ cs)) events)
      (length-take_suc room c cs (omega arith)) (omega (arith, length-take_le room (c ∷ cs)))
      (ap (λ z. take room (c ∷ cs) ++ z) (sent-keep (drop room (c ∷ cs)) events)
        ∙ take-append-drop room (c ∷ cs) (sent events))
      refl

==-eq : (m n : ℕ) → (m == n) ≡ true → m ≡ n
==-eq m n h = ground arith

pub recv-cases :
    (b : Buffer) (events : List Event)
    → last b ≤ b.size
    → RecvCases b events (recv_http_request b events)
unfolding recv_http_request
recv-cases b events le = elim (Bool-cases (last b == b.size)) [
  | inl e ↦ failed_is 1 (inl (==-eq (last b) b.size e)) (simp e)
  | inr e ↦
      subst (RecvCases b events) (sym (simp e)) (recv_events-cases b events (grind (arith, e)))
]
