-- ===== src/Util/Memcache.antt =====
-- src/util/memcache.c: a stack of free objects in front of `malloc`.
pub mod Defs
pub mod Laws
pub mod Create
