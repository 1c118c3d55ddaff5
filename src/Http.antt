-- ===== src/Http.antt =====
-- src/http: the request parsers, the request handler and the responses.
pub mod Types
pub mod Method
pub mod Line
pub mod Header
pub mod Response
pub mod Request
