-- ===== src/Http/Response/Status.antt =====
-- The status lines of src/http/response.c: the array `http_status_lines` and its lookup.
use cserv.Prelude.{
  ℕ, ◌+◌, ◌-◌, Option, none, some, List, [], ◌∷◌, ◌++◌, ◌&&◌, leb, ltb, if◌then◌else◌, get_or,
  codes,
}

abbrev pub Bytes : Type 0
Bytes = List ℕ

abbrev pub status_lines_2xx : List (Option Bytes)
status_lines_2xx =
    some (codes "200 OK")
    ∷ some (codes "201 Created")
    ∷ some (codes "202 Accepted")
    ∷ none
    ∷ some (codes "204 No Content")
    ∷ none
    ∷ some (codes "206 Partial Content")
    ∷ []

abbrev pub status_lines_3xx : List (Option Bytes)
status_lines_3xx =
    some (codes "301 Moved Permanently")
    ∷ some (codes "302 Moved Temporarily")
    ∷ some (codes "303 See Other")
    ∷ some (codes "304 Not Modified")
    ∷ none
    ∷ none
    ∷ some (codes "307 Temporary Redirect")
    ∷ []

abbrev pub status_lines_4xx : List (Option Bytes)
status_lines_4xx =
    some (codes "400 Bad Request")
    ∷ some (codes "401 Unauthorized")
    ∷ some (codes "402 Payment Required")
    ∷ some (codes "403 Forbidden")
    ∷ some (codes "404 Not Found")
    ∷ some (codes "405 Not Allowed")
    ∷ some (codes "406 Not Acceptable")
    ∷ none
    ∷ some (codes "408 Request Time-out")
    ∷ some (codes "409 Conflict")
    ∷ some (codes "410 Gone")
    ∷ some (codes "411 Length Required")
    ∷ some (codes "412 Precondition Failed")
    ∷ some (codes "413 Request Entity Too Large")
    ∷ some (codes "414 Request-URI Too Large")
    ∷ some (codes "415 Unsupported Media Type")
    ∷ some (codes "416 Requested Range Not Satisfiable")
    ∷ []

abbrev pub status_lines_5xx : List (Option Bytes)
status_lines_5xx =
    some (codes "500 Internal Server Error")
    ∷ some (codes "501 Not Implemented")
    ∷ some (codes "502 Bad Gateway")
    ∷ some (codes "503 Service Temporarily Unavailable")
    ∷ some (codes "504 Gateway Time-out")
    ∷ none
    ∷ none
    ∷ some (codes "507 Insufficient Storage")
    ∷ []

-- `http_status_lines`; a `NULL_STRING` is `none`.
abbrev pub http_status_lines : List (Option Bytes)
http_status_lines = status_lines_2xx ++ (status_lines_3xx ++ (status_lines_4xx ++ status_lines_5xx))

abbrev pub http_status_last_2xx : ℕ
http_status_last_2xx = 207

abbrev pub http_status_offset_3xx : ℕ
http_status_offset_3xx = http_status_last_2xx - 200

abbrev pub http_status_last_3xx : ℕ
http_status_last_3xx = 308

abbrev pub http_status_offset_4xx : ℕ
http_status_offset_4xx = http_status_last_3xx - 301 + http_status_offset_3xx

abbrev pub http_status_last_4xx : ℕ
http_status_last_4xx = 417

abbrev pub http_status_offset_5xx : ℕ
http_status_offset_5xx = http_status_last_4xx - 400 + http_status_offset_4xx

abbrev pub http_status_offset_last : ℕ
http_status_offset_last = 508

-- the index into `http_status_lines`, `none` for an unknown code
unfoldable pub status_index : ℕ → Option ℕ
status_index ret_code =
    if leb 200 ret_code && ltb ret_code http_status_last_2xx
    then some (ret_code - 200)
    else if leb 301 ret_code && ltb ret_code http_status_last_3xx
    then some (ret_code - 301 + http_status_offset_3xx)
    else if leb 400 ret_code && ltb ret_code http_status_last_4xx
    then some (ret_code - 400 + http_status_offset_4xx)
    else if leb 500 ret_code && ltb ret_code http_status_offset_last
    then some (ret_code - 500 + http_status_offset_5xx)
    else none

unfoldable pub get_http_status_line : ℕ → Option Bytes
unfolding status_index
get_http_status_line ret_code = elim (status_index ret_code) [
  | none ↦ none
  | some i ↦ get_or http_status_lines i none
]
