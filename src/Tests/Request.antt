-- ===== src/Tests/Request.antt =====
-- Runs of the receiving loops and of the parser of headers.
use cserv.Prelude.{ℕ, ◌≡◌, refl, arith, List, [], ◌∷◌, ◌++◌, codes}
use cserv.Http.Types.{cr, lf, HttpRequest}
use cserv.Http.Line.State.{line_code, s_start}
use cserv.Http.Line.Chunks.{append}
use cserv.Http.Header.State as HS
use cserv.Http.Header.Loop.{http_parse_request_header}
use cserv.Http.Header.Printed.{ReadHeader, http_parse_request_header-print}
use cserv.Http.Header.Bounds.{ResultInv, http_parse_request_header-Inv}
use cserv.Http.Request.Recv.{Event, arrived, closed}
use cserv.Http.Request.Process.{
  processed, process_error, http_process_request_line, http_process_request_body,
}
use cserv.Http.Request.LineWhole.{Whole, http_process_request_line-Whole}
use cserv.Http.Request.Body.{
  Content, with_content, pieces, http_process_request_body-Content,
  http_process_request_body-pieces, http_process_request_body-overlong,
}
use cserv.Prelude.{◌%◌, Bool, true, false, none, some, if◌then◌else◌}
use cserv.Http.Types.{last}
use cserv.Http.Request.Atoi.{Handled, handled, refused, http_process_content_length}
use cserv.Http.Request.Handlers.{HeaderTable, hash_key_lc, handle_http_request_header}
use cserv.Http.Request.Process.{http_process_request_header}
use cserv.Http.Request.Headers.{Kept, Returned, http_process_request_header-Returned}
use cserv.Util.HashTable.Table.{hash_table_find}
use cserv.Util.HashTable.Bucket.{bucket_find}
use cserv.Http.Request.Host.{http_process_host}
use cserv.Http.Request.HostLaws.{Hosted, http_process_host-Hosted}
use cserv.Tests.Samples.{request_of}

-- a line that arrives in two parts
abbrev two_parts : List Event
two_parts =
    arrived b'G' (codes "ET /") ∷ arrived b'a' (codes " HTTP/1.1" ++ cr ∷ lf ∷ []) ∷ closed ∷ []

http_process_request_line-Whole_example :
    Whole
      (request_of [] 64 0)
      two_parts
      (http_process_request_line 65 (request_of [] 64 0) two_parts)
unfolding line_code
http_process_request_line-Whole_example =
    http_process_request_line-Whole 65 s_start (request_of [] 64 0) two_parts refl (omega arith)
      (ground arith) (omega arith) (omega arith)

-- the request behind the headers of a POST, with a body of four bytes
abbrev post : List ℕ → HttpRequest
post received = record (request_of (b'x' ∷ received) 64 1) { content_len = 4 }

http_process_request_body-Content_example :
    Content
      (post (codes "ab"))
      (http_process_request_body 64 (post (codes "ab")) (arrived b'c' (codes "d") ∷ []))
http_process_request_body-Content_example =
    http_process_request_body-Content 64 (post (codes "ab")) (arrived b'c' (codes "d") ∷ [])
      (omega arith) (omega arith)

http_process_request_body-pieces_example :
    http_process_request_body 3 (post (codes "a")) (pieces ((b'b', []) ∷ (b'c', codes "d") ∷ []))
    ≡ processed (with_content (append (codes "bcd") (post (codes "a")))) []
http_process_request_body-pieces_example =
    http_process_request_body-pieces 3 (post (codes "a")) ((b'b', []) ∷ (b'c', codes "d") ∷ [])
      (omega arith) (omega arith) (omega arith) refl

http_process_request_body-overlong_example :
    http_process_request_body 64 (post (codes "abcde")) (arrived b'f' [] ∷ []) ≡ process_error 1
http_process_request_body-overlong_example =
    http_process_request_body-overlong 64 (post (codes "abcde")) (arrived b'f' [] ∷ [])
      (omega arith) (omega arith) (omega arith)

abbrev header_line : List ℕ
header_line = codes "Host: A" ++ cr ∷ lf ∷ []

http_parse_request_header-Inv_example :
    ResultInv
      (request_of header_line 64 0).header
      0
      9
      (http_parse_request_header (request_of header_line 64 0))
unfolding HS.header_code
http_parse_request_header-Inv_example =
    http_parse_request_header-Inv HS.s_start (request_of header_line 64 0) refl (omega arith)
      (ground arith)

abbrev length_line : List ℕ
length_line = codes "xContent-Length: 1 2" ++ (cr ∷ lf ∷ b'y' ∷ [])

http_parse_request_header-print_example :
    (r' : HttpRequest) × ReadHeader
      (request_of length_line 64 1)
      r'
      (codes "Content-Length")
      (codes "1 2")
      22
unfolding HS.header_code HS.lowcase
http_parse_request_header-print_example =
    http_parse_request_header-print (request_of length_line 64 1) (b'x' ∷ []) b'C'
      (codes "ontent-Length") b'1' (codes " 2") (b'y' ∷ []) refl refl refl refl (ground arith)
      (ground arith) (ground arith) (ground arith) (ground arith)

-- a table with the handler of Content-Length only
abbrev length_table : HeaderTable
length_table = record {
  bucket_size = 1;
  buckets =
      (record { key = hash_key_lc (codes "Content-Length"); object = http_process_content_length }
        ∷ [])
      ∷ [];
}

abbrev KeptBy : HttpRequest → Handled → Type 0
KeptBy r (handled r') =
    (last r'.header ≡ last r.header)
    × (r'.header.size ≡ r.header.size)
    × (r'.header.pos ≡ r.header.pos)
    × (r'.state ≡ r.state)
    × (r'.lowcase_header ≡ r.lowcase_header)
    × (r'.lowcase_index ≡ r.lowcase_index)
KeptBy r refused = Unit

content_length-KeptBy : (r : HttpRequest) → KeptBy r (http_process_content_length r)
unfolding http_process_content_length
content_length-KeptBy r = ground arith

-- the choice that the lookup makes, by its three tests
chosen_kept :
    (r : HttpRequest) (valid below found : Bool)
    → KeptBy r (
        if valid
        then elim (if below
            then none
            else if found
            then some http_process_content_length
            else none) [ none ↦ handled r | some f ↦ f r ]
        else handled r)
chosen_kept r false below found = (refl, refl, refl, refl, refl, refl)
chosen_kept r true true found = (refl, refl, refl, refl, refl, refl)
chosen_kept r true false true = content_length-KeptBy r
chosen_kept r true false false = (refl, refl, refl, refl, refl, refl)

length_table-KeptBy : (r : HttpRequest) → KeptBy r (handle_http_request_header length_table r)
unfolding handle_http_request_header hash_table_find bucket_find
length_table-KeptBy r =
    let first : r.header_hash % 1 ≡ 0 = omega arith in rw first (chosen_kept r _ _ _)

length_table-Kept :
    (r r' : HttpRequest) → handle_http_request_header length_table r ≡ handled r' → Kept r r'
length_table-Kept r r' e =
    let (a, b, c, d, f, g) = rw e at (length_table-KeptBy r) in
    record {
      last_kept = a;
      size_kept = b;
      pos_kept = c;
      state_kept = d;
      table_kept = f;
      index_kept = g;
    }

http_process_request_header-Returned_example : Returned 64 (
    http_process_request_header length_table 129
      (request_of header_line 64 0)
      (arrived cr (lf ∷ []) ∷ []))
unfolding HS.header_code
http_process_request_header-Returned_example =
    http_process_request_header-Returned length_table length_table-Kept 129 HS.s_start
      (request_of header_line 64 0) (arrived cr (lf ∷ []) ∷ []) refl (omega arith) (ground arith)
      (omega arith) (omega arith)

http_process_host-Hosted_example :
    Hosted
      (record (request_of header_line 64 9) { header_value = record { p = some 6; len = 1 } })
      (http_process_host
        (record (request_of header_line 64 9) { header_value = record { p = some 6; len = 1 } }))
http_process_host-Hosted_example =
    http_process_host-Hosted
      (record (request_of header_line 64 9) { header_value = record { p = some 6; len = 1 } })
      (omega arith)
