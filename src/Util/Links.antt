-- ===== src/Util/Links.antt =====
-- src/util/list.h: the circular, doubly linked lists that are built into other structures.
pub mod Defs
pub mod Segment
pub mod Laws
pub mod Moves
