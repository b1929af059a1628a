-- ===== src/Buffer.antt =====
-- src/yc-buffer.c and src/yc-buffer.h: a byte buffer as a chain of fragments.
-- A fragment holds its valid bytes, `buf[buf_start .. buf_start + buf_length)`, as a list; what
-- stands in `buf` outside of them is never read. The chain from `first_frag` to `last_frag` is a
-- list, so `last_frag` is its last element, and NULL where the list is empty.
pub mod Defs
pub mod Transfer
pub mod Content
