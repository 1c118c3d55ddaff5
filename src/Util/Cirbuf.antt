-- ===== src/Util/Cirbuf.antt =====
-- src/util/cirbuf.h: a circular buffer of `elem_count` slots, one of which stays free to tell a
-- full buffer from an empty one. The callbacks are functions: `write_cb` makes the slot's new
-- content, `read_cb` takes the content of a slot into the consumer's state.
pub mod Defs
pub mod Laws
