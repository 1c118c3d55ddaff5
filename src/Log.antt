-- ===== src/Log.antt =====
-- src/logger.c: the log, with a circular buffer for each process, and the master that writes it out.
pub mod Defs
pub mod Flush
pub mod Queues
pub mod Scan
pub mod Slots
