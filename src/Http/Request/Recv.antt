-- ===== src/Http/Request/Recv.antt =====
-- `recv_http_request` of src/http/request.c. What the client does is a list of events, in order:
-- bytes that arrive, the end of the stream, or a failure of the socket. `recv` is a call of the
-- system: it hands over at most as many bytes as it is asked for and keeps the others for the next
-- call. When no event is left the client stays silent, and the call ends by its timeout.
use cserv.Prelude.{ℕ, ◌-◌, List, [], ◌∷◌, ◌++◌, ◌==◌, if◌then◌else◌, take, drop}
use cserv.Http.Types.{Buffer, last}

-- `arrived b bs` are the bytes `b ∷ bs`: an arrival is never empty.
pub data Event : Type 0 where
  arrived : ℕ → List ℕ → Event
  closed : Event
  failed : Event

-- what `recv` leaves of an arrival
abbrev pub keep : List ℕ → List Event → List Event
keep [] events = events
keep (b ∷ bs) events = arrived b bs ∷ events

-- result 0 with the buffer and the events to come, or `-n`
pub data RecvResult : Type 0 where
  received : Buffer → List Event → RecvResult
  recv_error : ℕ → RecvResult

unfoldable pub recv_events : Buffer → List Event → RecvResult
recv_events b [] = recv_error 2
recv_events b (failed ∷ events) = recv_error 3
recv_events b (closed ∷ events) = recv_error 4
recv_events b (arrived c cs ∷ events) =
    let room = b.size - last b in
    received (record b { mem = b.mem ++ take room (c ∷ cs) }) (keep (drop room (c ∷ cs)) events)

unfoldable pub recv_http_request : Buffer → List Event → RecvResult
unfolding recv_events
recv_http_request b events = if last b == b.size then recv_error 1 else recv_events b events
