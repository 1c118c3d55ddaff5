-- ===== src/Http/Request.antt =====
-- src/http/request.c: receiving and processing one request.
pub mod Atoi
pub mod Host
pub mod Recv
pub mod Handlers
pub mod Process
pub mod Serve
pub mod Arrivals
pub mod LineWhole
pub mod Body
pub mod Headers
pub mod HostLaws
