-- ===== src/Proc.antt =====
-- src/process.c and src/signal.c: the master process and its workers.
pub mod Master
pub mod System
pub mod Tables
pub mod Rounds
pub mod Shutdown
pub mod Stranded
pub mod Worker
pub mod Connections
pub mod Draining
