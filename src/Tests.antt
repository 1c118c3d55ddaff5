-- ===== src/Tests.antt =====
-- Runs of the functions on concrete inputs.
mod Samples
mod Line
mod Request
mod Response
mod Util
mod Coro
mod Io
mod Shm
mod Links
