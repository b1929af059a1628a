-- ===== src/Shell/Progress.antt =====
-- The loops of src/yc-shell.c end: each round consumes a byte.
pub mod Word
pub mod Token
