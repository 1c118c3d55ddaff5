-- ===== src/Http/Response/Pages.antt =====
-- The error pages of src/http/response.c: the texts, the array `http_error_pages` and its lookup.
use cserv.Prelude.{
  ℕ, ◌+◌, ◌-◌, Option, none, some, List, [], ◌∷◌, ◌++◌, ◌&&◌, leb, ltb, if◌then◌else◌, get_or,
  codes,
}
use cserv.Http.Types.{cr, lf}
use cserv.Http.Response.Status.{Bytes}

abbrev pub crlf : Bytes
crlf = cr ∷ lf ∷ []

-- a line of a page, `text CRLF`
abbrev line : Bytes → Bytes → Bytes
line text rest = text ++ (crlf ++ rest)

abbrev tagged : Bytes → Bytes → Bytes → Bytes
tagged before text after = before ++ (text ++ after)

-- the lines that all pages share, around a title, a heading and what follows
abbrev page_with : Bytes → Bytes → Bytes → Bytes
page_with title heading rest = line (codes "<html>") (
    line (tagged (codes "<head><title>") title (codes "</title></head>")) (
      line (codes "<body bgcolor=\"white\">")
        (line (tagged (codes "<center><h1>") heading (codes "</h1></center>")) rest)))

abbrev page : Bytes → Bytes → Bytes
page title heading = page_with title heading []

-- a page with one more line
abbrev page2 : Bytes → Bytes → Bytes → Bytes
page2 title heading text =
    page_with title heading (line (tagged (codes "<center>") text (codes "</center>")) [])

abbrev pub http_error_200_page : Bytes
http_error_200_page = page (codes "cserv") (codes "welcome to cserv")

abbrev pub error_pages_3xx : List (Option Bytes)
error_pages_3xx =
    some (page (codes "301 Moved Permanently") (codes "301 Moved Permanently"))
    ∷ some (page (codes "302 Found") (codes "302 Found"))
    ∷ some (page (codes "303 See Other") (codes "303 See Other"))
    ∷ none
    ∷ none
    ∷ none
    ∷ some (page (codes "307 Temporary Redirect") (codes "307 Temporary Redirect"))
    ∷ []

abbrev pub error_pages_4xx : List (Option Bytes)
error_pages_4xx =
    some (page (codes "400 Bad Request") (codes "400 Bad Request"))
    ∷ some (page (codes "401 Authorization Required") (codes "401 Authorization Required"))
    ∷ some (page (codes "402 Payment Required") (codes "402 Payment Required"))
    ∷ some (page (codes "403 Forbidden") (codes "403 Forbidden"))
    ∷ some (page (codes "404 Not Found") (codes "404 Not Found"))
    ∷ some (page (codes "405 Not Allowed") (codes "405 Not Allowed"))
    ∷ some (page (codes "406 Not Acceptable") (codes "406 Not Acceptable"))
    ∷ none
    ∷ some (page (codes "408 Request Time-out") (codes "408 Request Time-out"))
    ∷ some (page (codes "409 Conflict") (codes "409 Conflict"))
    ∷ some (page (codes "410 Gone") (codes "410 Gone"))
    ∷ some (page (codes "411 Length Required") (codes "411 Length Required"))
    ∷ some (page (codes "412 Precondition Failed") (codes "412 Precondition Failed"))
    ∷ some (page (codes "413 Request Entity Too Large") (codes "413 Request Entity Too Large"))
    ∷ some (page (codes "414 Request-URI Too Large") (codes "414 Request-URI Too Large"))
    ∷ some (page (codes "415 Unsupported Media Type") (codes "415 Unsupported Media Type"))
    ∷ some (
        page (codes "416 Requested Range Not Satisfiable")
          (codes "416 Requested Range Not Satisfiable"))
    ∷ []

abbrev pub error_pages_49x : List (Option Bytes)
error_pages_49x =
    some (
      page2 (codes "400 Request Header Or Cookie Too Large") (codes "400 Bad Request")
        (codes "Request Header Or Cookie Too Large"))
    ∷ some (
        page2 (codes "400 The SSL certificate error") (codes "400 Bad Request")
          (codes "The SSL certificate error"))
    ∷ some (
        page2 (codes "400 No required SSL certificate was sent") (codes "400 Bad Request")
          (codes "No required SSL certificate was sent"))
    ∷ some (
        page2 (codes "400 The plain HTTP request was sent to HTTPS port") (codes "400 Bad Request")
          (codes "The plain HTTP request was sent to HTTPS port"))
    ∷ some (page (codes "404 Not Found") (codes "404 Not Found"))
    ∷ none
    ∷ []

abbrev pub error_pages_5xx : List (Option Bytes)
error_pages_5xx =
    some (page (codes "500 Internal Server Error") (codes "500 Internal Server Error"))
    ∷ some (page (codes "501 Not Implemented") (codes "501 Not Implemented"))
    ∷ some (page (codes "502 Bad Gateway") (codes "502 Bad Gateway"))
    ∷ some (
        page (codes "503 Service Temporarily Unavailable")
          (codes "503 Service Temporarily Unavailable"))
    ∷ some (page (codes "504 Gateway Time-out") (codes "504 Gateway Time-out"))
    ∷ none
    ∷ none
    ∷ some (page (codes "507 Insufficient Storage") (codes "507 Insufficient Storage"))
    ∷ []

-- `http_error_pages`; a `NULL_STRING` is `none`.
abbrev pub http_error_pages : List (Option Bytes)
http_error_pages = error_pages_3xx ++ (error_pages_4xx ++ (error_pages_49x ++ error_pages_5xx))

abbrev pub http_error_last_3xx : ℕ
http_error_last_3xx = 308

abbrev pub http_error_offset_4xx : ℕ
http_error_offset_4xx = http_error_last_3xx - 301

abbrev pub http_error_last_4xx : ℕ
http_error_last_4xx = 417

abbrev pub http_error_offset_494 : ℕ
http_error_offset_494 = http_error_last_4xx - 400 + http_error_offset_4xx

abbrev pub http_error_offset_last : ℕ
http_error_offset_last = 508

-- the index into `http_error_pages`, `none` where the code gets no page
unfoldable pub error_page_index : ℕ → Option ℕ
error_page_index ret_code =
    if leb 301 ret_code && ltb ret_code http_error_last_3xx
    then some (ret_code - 301)
    else if leb 400 ret_code && ltb ret_code http_error_last_4xx
    then some (ret_code - 400 + http_error_offset_4xx)
    else if leb 494 ret_code && ltb ret_code http_error_offset_last
    then some (ret_code - 494 + http_error_offset_494)
    else none

-- `none` is the result NULL; a pointer to a `NULL_STRING` is `some none`.
unfoldable pub get_http_error_page : ℕ → Option (Option Bytes)
unfolding error_page_index
get_http_error_page ret_code = elim (error_page_index ret_code) [
  | none ↦ none
  | some i ↦ some (get_or http_error_pages i none)
]
