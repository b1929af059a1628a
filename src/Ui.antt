-- ===== src/Ui.antt =====
-- src/yc-ui.c: the options of the user interfaces, the lines of a job's output, and the table of jobs.
pub mod Options
pub mod Index
pub mod Lines
pub mod Jobs
