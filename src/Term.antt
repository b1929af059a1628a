-- ===== src/Term.antt =====
-- src/yc-term.c: key sequences, and a frame of rows of which only the changed ones are written.
pub mod Utf8
pub mod Rows
pub mod Keys
pub mod Frame
