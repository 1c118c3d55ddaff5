-- ===== src/Tests/Samples.antt =====
-- Requests for the tests.
use cserv.Prelude.{ℕ, none, List, [], ◌∷◌, ◌++◌, codes}
use cserv.Http.Types.{str_init, cr, lf, http_unknown, HttpRequest}

-- memory that holds zeros
abbrev zeros32 : List ℕ
zeros32 =
    0 ∷ 0 ∷ 0 ∷ 0 ∷ 0 ∷ 0 ∷ 0 ∷ 0 ∷ 0 ∷ 0 ∷ 0 ∷ 0 ∷ 0 ∷ 0 ∷ 0 ∷ 0 ∷ 0 ∷ 0 ∷ 0 ∷ 0 ∷ 0 ∷ 0 ∷ 0 ∷ 0
    ∷ 0 ∷ 0 ∷ 0 ∷ 0 ∷ 0 ∷ 0 ∷ 0 ∷ 0 ∷ []

-- a request over a buffer with these bytes
abbrev pub request_of : List ℕ → ℕ → ℕ → HttpRequest
request_of mem size pos = record {
  fd = 5;
  header = record { mem = mem; size = size; pos = pos };
  state = 0;
  request_line = str_init;
  method_name = str_init;
  method = http_unknown;
  schema = str_init;
  host = str_init;
  port = str_init;
  uri = str_init;
  args = none;
  exten = str_init;
  http_protocol = str_init;
  http_major = 0;
  http_minor = 0;
  http_version = 0;
  complex_uri = 0;
  quoted_uri = 0;
  plus_in_uri = 0;
  space_in_uri = 0;
  content_len = 0;
  content = str_init;
  header_name = str_init;
  header_value = str_init;
  invalid_header = 0;
  header_hash = 0;
  lowcase_index = 0;
  lowcase_header = zeros32;
}

abbrev pub get_line : List ℕ
get_line = codes "GET /a HTTP/1.1" ++ cr ∷ lf ∷ []
