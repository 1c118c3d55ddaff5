-- ===== src/Http/Request/Process.antt =====
-- The three loops of src/http/request.c that receive and parse a request. They are recursions on
-- fuel.
use cserv.Prelude.{ℕ, zero, suc, ◌-◌, some, List, ◌==◌, if◌then◌else◌}
use cserv.Http.Types.{last, HttpRequest}
use cserv.Http.Line.Loop.{LineResult, complete, http_parse_request_line}
use cserv.Http.Header.Loop.{HeaderResult, line, all, http_parse_request_header}
use cserv.Http.Request.Atoi.{handled, refused}
use cserv.Http.Request.Recv.{Event, received, recv_error, recv_http_request}
use cserv.Http.Request.Handlers.{HeaderTable, handle_http_request_header}

-- Result 0 with the request and the events to come, or `-n`. After an error the caller uses nothing
-- of the request but its descriptor and the bounds of its buffer, which the loops leave alone.
pub data Processed : Type 0 where
  processed : HttpRequest → List Event → Processed
  process_error : ℕ → Processed
  out_of_fuel : Processed

unfoldable pub http_process_request_line : ℕ → HttpRequest → List Event → Processed
http_process_request_line zero r events = out_of_fuel
http_process_request_line (suc fuel) r events = elim (recv_http_request r.header events) [
  | recv_error n ↦ process_error 1
  | received b events' ↦ elim (http_parse_request_line (record r { header = b })) [
    | complete r' ↦ processed r' events'
    | LineResult.more r' ↦ http_process_request_line fuel r' events'
    | LineResult.error n ↦ process_error 2
  ]
]

unfoldable pub http_process_request_header : HeaderTable → ℕ → HttpRequest → List Event → Processed
http_process_request_header ht zero r events = out_of_fuel
http_process_request_header ht (suc fuel) r events = elim (http_parse_request_header r) [
  | line r' ↦ elim (handle_http_request_header ht r') [
    | refused ↦ process_error 1
    | handled r'' ↦ http_process_request_header ht fuel r'' events
  ]
  | HeaderResult.more r' ↦ elim (recv_http_request r'.header events) [
    | recv_error n ↦ process_error 2
    | received b events' ↦ http_process_request_header ht fuel (record r' { header = b }) events'
  ]
  | all r' ↦ processed r' events
  | HeaderResult.error n ↦ process_error 3
]

unfoldable pub http_process_request_body : ℕ → HttpRequest → List Event → Processed
http_process_request_body zero r events = out_of_fuel
http_process_request_body (suc fuel) r events =
    let later : Processed = elim (recv_http_request r.header events) [
      | recv_error n ↦ process_error 1
      | received b events' ↦ http_process_request_body fuel (record r { header = b }) events'
    ] in
    if last r.header - r.header.pos == r.content_len
    then processed (record r { content = record { p = some r.header.pos; len = r.content_len } })
        events
    else later
