-- ===== src/Shell.antt =====
-- src/yc-shell.c: one line of shell script to the description of a child process.
-- A C string is the list of its bytes before the NUL; a pointer into the line is the list of
-- the bytes from there on. The text of an error message is not modelled.
pub mod Types
pub mod Chars
pub mod FdMap
pub mod Words
pub mod Redirect
pub mod Env
pub mod Line
pub mod Progress
pub mod Quoting
pub mod Puts
pub mod Slots
pub mod Outcome
