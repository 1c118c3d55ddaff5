-- ===== src/Http/Line.antt =====
-- `http_parse_request_line` of src/http/parse.c: its states, the cases of its switch, its loop,
-- and what is proved of them.
pub mod State
pub mod Target
pub mod Path
pub mod Version
pub mod Loop
pub mod Bounds
pub mod Chunks
pub mod Arrived
pub mod Outcome
pub mod RoundTrip
pub mod Printed
