-- ===== src/Http/Response.antt =====
-- src/http/response.c: status lines, error pages and the answer to a request.
pub mod Status
pub mod Pages
pub mod Finalize
pub mod Laws
