-- ===== src/Http/Method/Names.antt =====
-- The names of the methods, and `get_request_method` (src/http/parse.c) as their inverse.
use cserv.Prelude.{ℕ, ◌≡◌, ◌≢◌, ◌↔◌, refl, arith, List, [], ◌∷◌, codes}
use cserv.Http.Types.{
  HttpMethod, http_unknown, http_get, http_head, http_post, http_put, http_delete, http_mkcol,
  http_copy, http_move, http_options, http_propfind, http_proppatch, http_lock, http_unlock,
  http_patch, http_trace,
}
use cserv.Http.Method.{get_request_method}

-- as RFC 7231, RFC 4918 and RFC 5789 spell them
abbrev pub method_name : HttpMethod → List ℕ
method_name http_unknown = []
method_name http_get = codes "GET"
method_name http_head = codes "HEAD"
method_name http_post = codes "POST"
method_name http_put = codes "PUT"
method_name http_delete = codes "DELETE"
method_name http_mkcol = codes "MKCOL"
method_name http_copy = codes "COPY"
method_name http_move = codes "MOVE"
method_name http_options = codes "OPTIONS"
method_name http_propfind = codes "PROPFIND"
method_name http_proppatch = codes "PROPPATCH"
method_name http_lock = codes "LOCK"
method_name http_unlock = codes "UNLOCK"
method_name http_patch = codes "PATCH"
method_name http_trace = codes "TRACE"

pub get_request_method-method_name : (m : HttpMethod) → get_request_method (method_name m) ≡ m
unfolding get_request_method
get_request_method-method_name http_unknown = refl
get_request_method-method_name _ = refl

abbrev Sound : HttpMethod → List ℕ → Type 0
Sound http_unknown name = Unit
Sound m name = name ≡ method_name m

get_request_method-Sound : (name : List ℕ) → Sound (get_request_method name) name
unfolding get_request_method
get_request_method-Sound (a ∷ b ∷ c ∷ []) = ground arith
get_request_method-Sound (a ∷ b ∷ c ∷ d ∷ []) = ground arith
get_request_method-Sound (a ∷ b ∷ c ∷ d ∷ e ∷ []) = ground arith
get_request_method-Sound (a ∷ b ∷ c ∷ d ∷ e ∷ f ∷ []) = ground arith
get_request_method-Sound (a ∷ b ∷ c ∷ d ∷ e ∷ f ∷ g ∷ []) = ground arith
get_request_method-Sound (a ∷ b ∷ c ∷ d ∷ e ∷ f ∷ g ∷ h ∷ []) = ground arith
get_request_method-Sound (a ∷ b ∷ c ∷ d ∷ e ∷ f ∷ g ∷ h ∷ i ∷ []) = ground arith
get_request_method-Sound _ = tt

Sound-eq : (m : HttpMethod) (name : List ℕ) → m ≢ http_unknown → Sound m name → name ≡ method_name m
Sound-eq http_unknown name known s = absurd (known refl)
Sound-eq _ name known s = s

-- `get_request_method` recognises exactly the names of the methods: it returns a method other than
-- HTTP_UNKNOWN for the bytes of that method's name, and for no others.
pub get_request_method_iff :
    (m : HttpMethod) (name : List ℕ)
    → m ≢ http_unknown
    → (get_request_method name ≡ m) ↔ (name ≡ method_name m)
get_request_method_iff m name known = (
  λ e. Sound-eq m name known (rw e at (get_request_method-Sound name)),
  λ e. rw e (get_request_method-method_name m),
)
