-- ===== src/Http/Request/Serve.antt =====
-- `__http_request_handler`, `http_request_handler` and `http_request_init` of src/http/request.c.
use cserv.Prelude.{ℕ, ◌+◌, ◌-◌, ◌*◌, ◌^◌, Bool, Option, none, some, List, [], ltb, if◌then◌else◌}
use cserv.Http.Types.{str_init, HttpRequest}
use cserv.Http.Response.Status.{Bytes}
use cserv.Http.Response.Finalize.{
  http_fast_response, http_insufficient_storage_page, http_finalize_request,
}
use cserv.Http.Request.Recv.{Event}
use cserv.Http.Request.Handlers.{HeaderHandler, HeaderTable, init_header_table}
use cserv.Http.Request.Process.{
  processed, process_error, out_of_fuel, http_process_request_line, http_process_request_header,
  http_process_request_body,
}
use cserv.Util.Memcache.Defs.{
  Memcache, memcache_alloc, memcache_free, created, failed, aborted, memcache_create,
}

-- What is sent and the request behind it.
abbrev pub Answer : Type 0
Answer = Option Bytes × HttpRequest

-- A handler of `struct request_line_handler`: `true` for a result other than 0.
abbrev pub LineHandler : Type 0
LineHandler = Option (HttpRequest → Bool × HttpRequest)

-- the handlers that `http_request_init` registers
pub record Handlers : Type 0 where
  pub method : LineHandler
  pub uri : LineHandler
  pub http : LineHandler
  pub header_ht : HeaderTable
  pub body : HttpRequest → Answer

-- `request_body_default_handler`
unfoldable pub request_body_default_handler : HttpRequest → Answer
request_body_default_handler r = http_finalize_request r 200

-- `if (handler && handler(r)) return;` and then the rest
unfoldable pub run_line_handler : LineHandler → HttpRequest → (HttpRequest → Answer) → Answer
run_line_handler none r rest = rest r
run_line_handler (some f) r rest = let (stop, r') = f r in if stop then (none, r') else rest r'

-- the fuel that the loops get
abbrev pub enough : HttpRequest → ℕ
enough r = 2 * r.header.size + 1

module _ (h : Handlers) where
  unfoldable pub serve_body : HttpRequest → List Event → Answer
  serve_body r events = elim (http_process_request_body (enough r) r events) [
    | processed r' _ ↦ h.body r'
    | process_error _ ↦ http_finalize_request r 507
    | out_of_fuel ↦ (none, r)
  ]

  -- from the test of the version on
  unfoldable pub serve_headers : List Event → HttpRequest → Answer
  serve_headers events r =
      if ltb r.http_version 1000
      then h.body r
      else elim (http_process_request_header h.header_ht (enough r) r events) [
        | processed r' events' ↦ serve_body r' events'
        | process_error _ ↦ http_finalize_request r 400
        | out_of_fuel ↦ (none, r)
      ]

  -- `__http_request_handler`
  unfoldable pub serve : HttpRequest → List Event → Answer
  serve r events = elim (http_process_request_line (enough r) r events) [
    | processed r' events' ↦
        run_line_handler h.method r'
          λ r1. run_line_handler h.uri r1 λ r2. run_line_handler h.http r2 (serve_headers events')
    | process_error _ ↦ http_finalize_request r 400
    | out_of_fuel ↦ (none, r)
  ]

-- `sizeof(struct http_request)` with pointers of 64 bits
abbrev pub sizeof_http_request : ℕ
sizeof_http_request = 304

-- The request as `http_request_handler` sets it up; `old` is what its memory held before.
unfoldable pub fresh_request : ℕ → ℕ → HttpRequest → HttpRequest
fresh_request client_header_size fd old = record old {
  fd = fd;
  state = 0;
  request_line = str_init;
  args = none;
  exten = str_init;
  http_protocol = str_init;
  content_len = 0;
  header = record { mem = []; size = client_header_size - sizeof_http_request; pos = 0 };
}

-- what the process keeps between requests
pub record HttpModule : Type 0 where
  pub client_header_size : ℕ
  pub cache : Memcache
  pub handlers : Handlers

-- `http_request_handler`: what is sent, and the module behind it. `malloc` is the answer of a call
-- of `malloc`, if one is made.
unfoldable pub http_request_handler :
    HttpModule → Option ℕ → HttpRequest → ℕ → List Event → Option Bytes × HttpModule
http_request_handler m malloc old fd events =
    let (element, cache) = memcache_alloc malloc m.cache in
    elim element [
      | none ↦ (http_fast_response http_insufficient_storage_page, record m { cache = cache })
      | some r ↦
          let answer = serve m.handlers (fresh_request m.client_header_size fd old) events in
          (answer.0, record m { cache = memcache_free cache r })
    ]

-- an optional argument of `http_request_init`, with what stands in its place
abbrev given {ℓ} : {A : Type ℓ} → Option A → A → A
given none a = a
given (some b) a = b

pub record LineHandlers : Type 0 where
  pub method : LineHandler
  pub uri : LineHandler
  pub http : LineHandler

abbrev no_line_handlers : LineHandlers
no_line_handlers = record { method = none; uri = none; http = none }

-- `http_request_init`; `none` is an exit. `malloc` are the answers for the cache, `malloc_ok` those
-- for the table; `connections` is `g_worker_connections`.
unfoldable pub http_request_init :
    (ℕ → Option ℕ)
    → Bool
    → ℕ
    → ℕ
    → Option LineHandlers
    → Option (List HeaderHandler)
    → Option (HttpRequest → Answer)
    → Option HttpModule
http_request_init malloc malloc_ok connections kbytes line_handler header_handler body_handler =
    elim (memcache_create malloc connections) [
      | failed _ ↦ none
      | aborted ↦ none
      | created cache ↦ elim (init_header_table malloc_ok (given header_handler [])) [
        | none ↦ none
        | some ht ↦
            let lines = given line_handler no_line_handlers in
            some (record {
              client_header_size = kbytes * 2 ^ 10;
              cache = cache;
              handlers = record {
                method = lines.method;
                uri = lines.uri;
                http = lines.http;
                header_ht = ht;
                body = given body_handler request_body_default_handler;
              };
            })
      ]
    ]
