-- ===== src/Http/Method.antt =====
-- src/http/parse.c, `get_request_method`: the switch on the length of the name, and in each case
-- the comparisons of single bytes that the CMP macros spell out.
pub mod Names
use cserv.Prelude.{ℕ, Bool, ◌&&◌, List, [], ◌∷◌, ◌==◌, if◌then◌else◌}
use cserv.Http.Types.{
  HttpMethod, http_unknown, http_get, http_head, http_post, http_put, http_delete, http_mkcol,
  http_copy, http_move, http_options, http_propfind, http_proppatch, http_lock, http_unlock,
  http_patch, http_trace,
}

-- `CMP3` to `CMP9`: the bytes of `m` from index 0 on are those given. The switch on the length
-- has made sure that both have the same number of bytes.
cmp : List ℕ → List ℕ → Bool
cmp [] [] = Bool.true
cmp (c ∷ m) (d ∷ ds) = c == d && cmp m ds
cmp _ _ = Bool.false

method3 : List ℕ → HttpMethod
method3 m =
    if cmp m (b'G' ∷ b'E' ∷ b'T' ∷ [])
    then http_get
    else if cmp m (b'P' ∷ b'U' ∷ b'T' ∷ [])
    then http_put
    else http_unknown

-- `CMP30` leaves index 1 out.
cmp30 : ℕ → ℕ → ℕ → ℕ → ℕ → ℕ → Bool
cmp30 m0 m2 m3 c0 c2 c3 = m0 == c0 && (m2 == c2 && m3 == c3)

method4 : ℕ → ℕ → ℕ → ℕ → HttpMethod
unfolding cmp30
method4 m0 m1 m2 m3 =
    if m1 == b'O'
    then if cmp30 m0 m2 m3 b'P' b'S' b'T'
      then http_post
      else if cmp30 m0 m2 m3 b'C' b'P' b'Y'
      then http_copy
      else if cmp30 m0 m2 m3 b'M' b'V' b'E'
      then http_move
      else if cmp30 m0 m2 m3 b'L' b'C' b'K'
      then http_lock
      else http_unknown
    else if cmp (m0 ∷ m1 ∷ m2 ∷ m3 ∷ []) (b'H' ∷ b'E' ∷ b'A' ∷ b'D' ∷ [])
    then http_head
    else http_unknown

method5 : List ℕ → HttpMethod
method5 m =
    if cmp m (b'M' ∷ b'K' ∷ b'C' ∷ b'O' ∷ b'L' ∷ [])
    then http_mkcol
    else if cmp m (b'P' ∷ b'A' ∷ b'T' ∷ b'C' ∷ b'H' ∷ [])
    then http_patch
    else if cmp m (b'T' ∷ b'R' ∷ b'A' ∷ b'C' ∷ b'E' ∷ [])
    then http_trace
    else http_unknown

method6 : List ℕ → HttpMethod
method6 m =
    if cmp m (b'D' ∷ b'E' ∷ b'L' ∷ b'E' ∷ b'T' ∷ b'E' ∷ [])
    then http_delete
    else if cmp m (b'U' ∷ b'N' ∷ b'L' ∷ b'O' ∷ b'C' ∷ b'K' ∷ [])
    then http_unlock
    else http_unknown

method7 : List ℕ → HttpMethod
method7 m =
    if cmp m (b'O' ∷ b'P' ∷ b'T' ∷ b'I' ∷ b'O' ∷ b'N' ∷ b'S' ∷ [])
    then http_options
    else http_unknown

method8 : List ℕ → HttpMethod
method8 m =
    if cmp m (b'P' ∷ b'R' ∷ b'O' ∷ b'P' ∷ b'F' ∷ b'I' ∷ b'N' ∷ b'D' ∷ [])
    then http_propfind
    else http_unknown

method9 : List ℕ → HttpMethod
method9 m =
    if cmp m (b'P' ∷ b'R' ∷ b'O' ∷ b'P' ∷ b'P' ∷ b'A' ∷ b'T' ∷ b'C' ∷ b'H' ∷ [])
    then http_proppatch
    else http_unknown

unfoldable pub get_request_method : List ℕ → HttpMethod
unfolding cmp method3 method4 method5 method6 method7 method8 method9
get_request_method (a ∷ b ∷ c ∷ []) = method3 (a ∷ b ∷ c ∷ [])
get_request_method (a ∷ b ∷ c ∷ d ∷ []) = method4 a b c d
get_request_method (a ∷ b ∷ c ∷ d ∷ e ∷ []) = method5 (a ∷ b ∷ c ∷ d ∷ e ∷ [])
get_request_method (a ∷ b ∷ c ∷ d ∷ e ∷ f ∷ []) = method6 (a ∷ b ∷ c ∷ d ∷ e ∷ f ∷ [])
get_request_method (a ∷ b ∷ c ∷ d ∷ e ∷ f ∷ g ∷ []) = method7 (a ∷ b ∷ c ∷ d ∷ e ∷ f ∷ g ∷ [])
get_request_method (a ∷ b ∷ c ∷ d ∷ e ∷ f ∷ g ∷ h ∷ []) =
    method8 (a ∷ b ∷ c ∷ d ∷ e ∷ f ∷ g ∷ h ∷ [])
get_request_method (a ∷ b ∷ c ∷ d ∷ e ∷ f ∷ g ∷ h ∷ i ∷ []) =
    method9 (a ∷ b ∷ c ∷ d ∷ e ∷ f ∷ g ∷ h ∷ i ∷ [])
get_request_method _ = http_unknown
