-- ===== src/Util.antt =====
-- src/util: the data structures that the server's parts share.
pub mod HashTable
pub mod Memcache
pub mod Cirbuf
pub mod Rbtree
pub mod Shm
pub mod Links
