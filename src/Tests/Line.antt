-- ===== src/Tests/Line.antt =====
-- Runs of the parser of request lines.
use cserv.Prelude.{ℕ, ◌≡◌, ◌↔◌, refl, arith, List, [], ◌∷◌, ◌++◌, codes}
use cserv.Http.Types.{str_bytes, lf, http_get, http_post, http_proppatch, HttpRequest}
use cserv.Http.Method.{get_request_method}
use cserv.Http.Method.Names.{method_name, get_request_method_iff}
use cserv.Http.Line.State.{s_start, line_code, line_state}
use cserv.Http.Line.Target.{line_start, line_method, line_spaces_before_uri}
use cserv.Http.Line.Path.{line_after_slash_in_uri, line_check_uri, is_usual}
use cserv.Http.Line.Loop.{line_step, line_loop, line_done}
use cserv.Http.Line.Loop.{LineResult, complete, http_parse_request_line}
use cserv.Http.Line.Bounds.{ResultInv, http_parse_request_line-Parsed}
use cserv.Http.Line.Chunks.{append, resume, http_parse_request_line-append}
use cserv.Http.Line.Arrived.{print_line}
use cserv.Http.Line.Outcome.{TakenForOld, http_parse_request_line-minor_nine}
use cserv.Http.Line.Printed.{Read, http_parse_request_line-print}
use cserv.Tests.Samples.{request_of, get_line}

-- the request of a complete result
abbrev result_of : LineResult → HttpRequest → HttpRequest
result_of (complete r) default = r
result_of _ default = default

simple_line : List ℕ
simple_line = codes "GET /a" ++ lf ∷ []

simple_run :
    http_parse_request_line (request_of simple_line 64 0)
    ≡ complete (
        result_of
          (http_parse_request_line (request_of simple_line 64 0))
          (request_of simple_line 64 0))
unfolding simple_line http_parse_request_line line_state line_loop line_step line_start line_method
    get_request_method line_spaces_before_uri line_after_slash_in_uri line_check_uri is_usual
    line_done line_code
simple_run = refl

-- the target, the version and the method of a line of HTTP/0.9
simple_parts :
    (str_bytes simple_line
        (result_of
          (http_parse_request_line (request_of simple_line 64 0))
          (request_of simple_line 64 0)).uri
      ≡ codes "/a")
    × ((result_of
          (http_parse_request_line (request_of simple_line 64 0))
          (request_of simple_line 64 0)).http_version
        ≡ 9)
unfolding simple_line http_parse_request_line line_state line_loop line_step line_start line_method
    get_request_method line_spaces_before_uri line_after_slash_in_uri line_check_uri is_usual
    line_done line_code
simple_parts = (refl, refl)

-- POST with HTTP/1.9
abbrev nine_line : List ℕ
nine_line = print_line http_post (codes "/a") 1 9 []

http_parse_request_line-minor_nine_example :
    TakenForOld http_post (http_parse_request_line (request_of nine_line 64 0))
unfolding line_code
http_parse_request_line-minor_nine_example =
    http_parse_request_line-minor_nine (request_of nine_line 64 0) [] http_post (codes "a") 1 []
      refl refl refl (ground arith) (ground arith) (omega arith) (omega arith)

http_parse_request_line-print_example :
    (r' : HttpRequest) × Read
      (request_of (b'x' ∷ get_line ++ b'H' ∷ []) 64 1)
      r'
      http_get
      (codes "/a")
      1
      1
      18
unfolding line_code
http_parse_request_line-print_example =
    http_parse_request_line-print (request_of (b'x' ∷ get_line ++ b'H' ∷ []) 64 1) (b'x' ∷ [])
      http_get (codes "a") 1 1 (b'H' ∷ []) refl refl refl (ground arith) (ground arith)
      (omega arith) (omega arith) (omega arith)

http_parse_request_line-append_example :
    http_parse_request_line (append (codes " /") (request_of (codes "GET") 64 0))
    ≡ resume (codes " /") (http_parse_request_line (request_of (codes "GET") 64 0))
unfolding line_code
http_parse_request_line-append_example =
    http_parse_request_line-append s_start (request_of (codes "GET") 64 0) (codes " /") refl
      (omega arith) (ground arith)

http_parse_request_line-Parsed_example :
    ResultInv 17 (http_parse_request_line (request_of get_line 64 0))
unfolding line_code
http_parse_request_line-Parsed_example =
    http_parse_request_line-Parsed s_start (request_of get_line 64 0) refl (omega arith)
      (ground arith)

get_request_method_iff_example :
    (get_request_method (codes "PROPPATCH") ≡ http_proppatch)
    ↔ (codes "PROPPATCH" ≡ method_name http_proppatch)
get_request_method_iff_example =
    get_request_method_iff http_proppatch (codes "PROPPATCH") (ground arith)
