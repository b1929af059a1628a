-- ===== src/Tests.antt =====
-- The theorems at concrete inputs, and runs of the code.
mod ShellRuns
mod Shell
mod Buffer
mod Child
mod Creation
mod CircularBuffer
mod Common
mod Term
mod Ui
mod Cmdline
