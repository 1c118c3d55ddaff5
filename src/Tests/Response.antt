-- ===== src/Tests/Response.antt =====
-- Runs of the responses.
use cserv.Prelude.{◌≤◌, ◌≡◌, refl, arith, inl, none, some, [], ◌++◌, codes, take, length}
use cserv.Http.Response.Status.{Bytes, http_status_lines, status_index, get_http_status_line}
use cserv.Http.Response.Pages.{crlf, http_error_pages, error_page_index}
use cserv.Http.Response.Finalize.{response_bytes, http_finalize_request}
use cserv.Http.Response.Laws.{
  Within, indices-Within, digits3, get_http_status_line-digits3, response_head,
  http_finalize_request-length, http_finalize_request-silent, http_finalize_request-terminated,
  http_finalize_request-unterminated,
}
use cserv.Tests.Samples.{request_of}

indices-Within_example :
    Within (length http_status_lines) (status_index 204)
    × Within (length http_error_pages) (error_page_index 204)
indices-Within_example = indices-Within 204

get_http_status_line-digits3_example : take 3 (codes "404 Not Found") ≡ digits3 404
unfolding get_http_status_line
get_http_status_line-digits3_example = get_http_status_line-digits3 404 (codes "404 Not Found") refl

http_finalize_request-length_example :
    (length (response_bytes (codes "404 Not Found") 404) ≤ 400)
    × ((http_finalize_request (request_of [] 64 0) 404).1.header.pos
        ≡ length (response_bytes (codes "404 Not Found") 404))
unfolding get_http_status_line http_finalize_request
http_finalize_request-length_example =
    http_finalize_request-length (request_of [] 64 0) 404
      (response_bytes (codes "404 Not Found") 404) refl

http_finalize_request-silent_example :
    http_finalize_request (request_of [] 64 0) 495 ≡ (none, request_of [] 64 0)
http_finalize_request-silent_example =
    http_finalize_request-silent (request_of [] 64 0) 495 (omega arith) (omega arith)

http_finalize_request-terminated_example :
    (body : Bytes) × ((http_finalize_request (request_of [] 64 0) 200).0
      ≡ some (response_head (codes "200 OK") ++ (crlf ++ body)))
unfolding get_http_status_line
http_finalize_request-terminated_example =
    http_finalize_request-terminated (request_of [] 64 0) 200 (codes "200 OK") refl (inl refl)

http_finalize_request-unterminated_example :
    (http_finalize_request (request_of [] 64 0) 204).0
    ≡ some (response_head (codes "204 No Content"))
unfolding get_http_status_line
http_finalize_request-unterminated_example =
    http_finalize_request-unterminated (request_of [] 64 0) 204 (codes "204 No Content") refl
      (omega arith) (omega arith)
