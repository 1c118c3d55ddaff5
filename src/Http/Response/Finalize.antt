-- ===== src/Http/Response/Finalize.antt =====
-- `http_fast_response` and `http_finalize_request` of src/http/response.c. What is handed to `send`
-- is the result; `none` means that nothing is sent.
use cserv.Prelude.{ℕ, ◌≡◌, Option, none, some, [], ◌++◌, ◌==◌, if◌then◌else◌, length, codes}
use cserv.Http.Types.{HttpRequest}
use cserv.Http.Response.Status.{Bytes, get_http_status_line}
use cserv.Http.Response.Pages.{crlf, http_error_200_page, get_http_error_page}

-- `HTTP_ERROR_HEADER`
abbrev pub http_error_header : Bytes
http_error_header =
    codes "Server: cserv/dev"
    ++ (crlf ++ (codes "Content-Type: text/html" ++ (crlf ++ (codes "Connection: Close" ++ crlf))))

-- `HTTP_INSUFFICIENT_STORAGE_PAGE`
abbrev pub http_insufficient_storage_page : Bytes
http_insufficient_storage_page =
    codes "HTTP/1.1 507 Insufficient Storage"
    ++ (crlf
        ++ (http_error_header
            ++ (crlf
                ++ (codes "<html>"
                    ++ (crlf
                        ++ (codes "<head><title>507 Insufficient Storage</title></head>"
                            ++ (crlf
                                ++ (codes "<body bgcolor=\"white\">"
                                    ++ (crlf
                                        ++ (codes
                                              "<center><h1>507 Insufficient Storage</h1></center>"
                                            ++ crlf))))))))))

unfoldable pub http_fast_response : Bytes → Option Bytes
http_fast_response content = some content

-- the bytes of an entry of `http_error_pages`
abbrev pub entry_bytes : Option Bytes → Bytes
entry_bytes none = []
entry_bytes (some bytes) = bytes

-- what follows the header lines
unfoldable pub response_body : ℕ → Bytes
response_body ret_code =
    if ret_code == 200 then crlf ++ http_error_200_page else elim (get_http_error_page ret_code) [
      | none ↦ []
      | some error_page ↦ crlf ++ entry_bytes error_page
    ]

unfoldable pub response_bytes : Bytes → ℕ → Bytes
response_bytes status_line ret_code =
    codes "HTTP/1.1 " ++ (status_line ++ ((crlf ++ http_error_header) ++ response_body ret_code))

-- The response is built from `start` on, over the bytes of the request; `last` stays at `start`.
unfoldable pub http_finalize_request : HttpRequest → ℕ → Option Bytes × HttpRequest
http_finalize_request r ret_code = elim (get_http_status_line ret_code) [
  | none ↦ (none, r)
  | some status_line ↦
      let out = response_bytes status_line ret_code in
      (some out, record r { header = record r.header { mem = []; pos = length out } })
]

module _ (r : HttpRequest) (ret_code : ℕ) where
  pub finalize-none :
      get_http_status_line ret_code ≡ none → http_finalize_request r ret_code ≡ (none, r)
  unfolding http_finalize_request
  finalize-none e = rw (http_finalize_request, e)

  pub finalize-some :
      (line : Bytes)
      → get_http_status_line ret_code ≡ some line
      → http_finalize_request r ret_code ≡ (
        some (response_bytes line ret_code),
        record r {
          header = record r.header { mem = []; pos = length (response_bytes line ret_code) };
        },
      )
  unfolding http_finalize_request
  finalize-some line e = rw (http_finalize_request, e)
