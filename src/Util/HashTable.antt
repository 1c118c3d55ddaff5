-- ===== src/Util/HashTable.antt =====
-- src/util/hashtable.c: a table of buckets, each a list that is sorted by key.
pub mod Bucket
pub mod Table
pub mod BucketLaws
pub mod TableLaws
pub mod CreateLaws
