-- ===== src/Http/Request/Handlers.antt =====
-- The table of header handlers in src/http/request.c, its registration, and the lookup by hash.
use Prim.Native.String.{String}
use cserv.Prelude.{
  ℕ, ◌+◌, ◌&&◌, Bool, Option, none, some, List, [], ◌∷◌, leb, ◌==◌, if◌then◌else◌, codes,
}
use cserv.Http.Types.{HttpRequest}
use cserv.Http.Header.State.{hash_step}
use cserv.Http.Request.Atoi.{Handled, handled, http_process_content_length}
use cserv.Http.Request.Host.{http_process_host}
use cserv.Util.HashTable.Table.{
  HashTable, added, no_memory, conflict, hash_table_find, hash_table_add, hash_table_create,
}

-- `struct request_header_handler`; a NULL handler is `none`.
pub record HeaderHandler : Type 0 where
  pub name : List ℕ
  pub handler : Option (HttpRequest → Handled)

abbrev entry : String → Option (HttpRequest → Handled) → HeaderHandler
entry name handler = record { name = codes name; handler = handler }

-- the array `http_headers_handler`, without the entry that ends it
abbrev pub http_headers_handler : List HeaderHandler
http_headers_handler =
    entry "Host" (some http_process_host)
    ∷ entry "Connection" none
    ∷ entry "If-Modified-Since" none
    ∷ entry "If-Unmodified-Since" none
    ∷ entry "If-Match" none
    ∷ entry "If-None-Match" none
    ∷ entry "User-Agent" none
    ∷ entry "Referer" none
    ∷ entry "Content-Length" (some http_process_content_length)
    ∷ entry "Content-Type" none
    ∷ entry "Range" none
    ∷ entry "If-Range" none
    ∷ entry "Transfer-Encoding" none
    ∷ entry "Expect" none
    ∷ entry "Upgrade" none
    ∷ entry "Authorization" none
    ∷ entry "Keep-Alive" none
    ∷ entry "Cookie" none
    ∷ []

-- `tolower`, in the C locale
abbrev pub tolower : ℕ → ℕ
tolower c = if leb b'A' c && leb c b'Z' then c + 32 else c

unfoldable pub hash_lc_loop : ℕ → List ℕ → ℕ
hash_lc_loop key [] = key
hash_lc_loop key (c ∷ rest) = hash_lc_loop (hash_step key (tolower c)) rest

unfoldable pub hash_key_lc : List ℕ → ℕ
unfolding hash_lc_loop
hash_key_lc name = hash_lc_loop 0 name

abbrev pub HeaderTable : Type 0
HeaderTable = HashTable (HttpRequest → Handled)

-- An entry with a handler is stored under the hash of its name. The first argument is the answer of
-- every `malloc`; `none` is `exit(-1)`.
unfoldable pub add_client_header_handler :
    Bool → List HeaderHandler → HeaderTable → Option HeaderTable
add_client_header_handler malloc_ok [] ht = some ht
add_client_header_handler malloc_ok (h ∷ rest) ht = elim h.handler [
  | none ↦ add_client_header_handler malloc_ok rest ht
  | some f ↦
      let (result, ht') = hash_table_add malloc_ok ht (hash_key_lc h.name) f in
      elim result [
        | added ↦ add_client_header_handler malloc_ok rest ht'
        | no_memory ↦ none
        | conflict ↦ none
      ]
]

-- the table that `http_request_init` builds: 128 buckets, the entries above, and those given
unfoldable pub init_header_table : Bool → List HeaderHandler → Option HeaderTable
init_header_table malloc_ok more =
    elim (hash_table_create {V = HttpRequest → Handled} malloc_ok 128) [
      | none ↦ none
      | some ht ↦ elim (add_client_header_handler malloc_ok http_headers_handler ht) [
        | none ↦ none
        | some ht' ↦ add_client_header_handler malloc_ok more ht'
      ]
    ]

-- `handle_http_request_header`
unfoldable pub handle_http_request_header : HeaderTable → HttpRequest → Handled
handle_http_request_header ht r =
    if r.invalid_header == 0
    then elim (hash_table_find ht r.header_hash) [ none ↦ handled r | some f ↦ f r ]
    else handled r
