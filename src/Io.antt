-- ===== src/Io.antt =====
-- src/event.c and src/syscall_hook.c: waiting for file descriptors.
pub mod Event
pub mod Hook
pub mod Laws
pub mod Others
pub mod Retry
