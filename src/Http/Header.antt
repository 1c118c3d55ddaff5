-- ===== src/Http/Header.antt =====
-- `http_parse_request_header` of src/http/parse.c: its states, the cases of its switch, its loop,
-- and what is proved of them.
pub mod State
pub mod Steps
pub mod Loop
pub mod Bounds
pub mod RoundTrip
pub mod Printed
