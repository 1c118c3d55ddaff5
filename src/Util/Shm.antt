-- ===== src/Util/Shm.antt =====
-- src/util/spinlock.h and src/util/shm.c: the ticket lock, and the allocator that it guards.
pub mod Spinlock
pub mod Tickets
pub mod Exclusion
pub mod Alloc
