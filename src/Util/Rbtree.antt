-- ===== src/Util/Rbtree.antt =====
-- src/util/rbtree.h and src/util/rbtree.c: red-black trees. A node with its ancestors is a subtree
-- and the path from it up to the root: `rb_parent` of a node is the first frame of its path.
pub mod Tree
pub mod Insert
pub mod Erase
pub mod Rounds
pub mod Order
pub mod OrderErase
pub mod Colors
pub mod InsertColors
pub mod EraseColors
pub mod EraseMirror
pub mod Parts
pub mod Valid
