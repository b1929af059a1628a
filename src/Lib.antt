-- ===== src/Lib.antt =====
-- yapara runs the commands that it reads in parallel and shows their output. This library models
-- eight of its parts:
--
-- * Shell models src/yc-shell.c: a line of shell syntax becomes a child to create
--   (`yc_shell_parse`), without a shell where the line needs none. Shell/Types has the records of
--   src/yc-child.h and src/yc-shell.h, Shell/Chars the tests on bytes and the scans over them,
--   Shell/Words `parse_word` with the expansion of variables, Shell/FdMap the descriptor map,
--   Shell/Redirect `parse_redirect`, Shell/Env `build_env`, and Shell/Line `parse_line`,
--   `build_create_info` and `yc_shell_parse`.
-- * Buffer models src/yc-buffer.c and the inline functions of src/yc-buffer.h: a byte buffer as a
--   chain of fragments, some of which the caller owns. Buffer/Defs has appending, reading, peeking,
--   discarding, searching and the stack of recycled fragments, Buffer/Transfer what two buffers
--   do with each other, and the access to single bytes.
-- * CircularBuffer models src/yc-circular-buffer.c: the last lines of a child's output, in storage
--   of fixed size.
-- * Term models src/yc-term.c: what a screen shows and which keys are pressed. Term/Utf8 decodes
--   text and has the tables of column widths, Term/Rows builds a frame row by row, Term/Frame
--   compares it with the frame before and sends the rows that differ, and Term/Keys decodes input
--   that arrives in pieces. Term/Frame/Terminal is no part of the source: it is a terminal that
--   reads the bytes sent for a frame, as far as these need. The headless terminal is a record with
--   the fields of the struct.
-- * Ui models src/yc-ui.c: Ui/Options the named options and colours, Ui/Index the index of a job in
--   digits, Ui/Lines the lines of a job's output from the chunks that are read, and Ui/Jobs the
--   table of jobs, from `yc_ui_spawn` by `ui_child_io` and `ui_child_done` to `yc_ui_free`, with
--   the events as a relation in Ui/Jobs/Events.
-- * Child models src/yc-child.c and src/yc-child.h: child processes and the pipes to them. Child/Defs
--   has a child with its descriptors and the callbacks of libuv (`child_fd_poll_cb`, `child_exit_cb`
--   and the close callbacks) beside `yc_child_fd_watch` and `yc_child_fd_close`, Child/FdInit and
--   Child/Create `yc_child_new`, and Child/Container the array of children, the retained ones and the
--   idle callback that asks for more. The events in the life of a child are a relation in
--   Child/Events, those of a container one in Child/Crew.
-- * Cmdline models src/yc-cmdline.c: Cmdline has the options and the checks at the end,
--   Cmdline/Process `yc_cmdline_try_process_args`, a word at a time, and Cmdline/Handlers how options
--   are added and their arguments read. The tree of options is a list of options.
-- * Common models `yc_parse_boolean` of src/yc-common.c, and Digits the writing of numbers.
--
-- The parser's result is the request that `yc_ui_spawn` changes and hands to src/yc-child.c, which
-- makes a child of it; the job's output is told line by line, and a user interface keeps the last
-- lines in a circular buffer and shows them on the terminal. Ui and Child take the parser's records,
-- Ui/Jobs has the lines of each job, and Child/Crew takes the events of Child/Events; the other parts
-- share no state, so each stands alone here.
--
-- Names are those of the source, without the `yc_` prefix and the name of the type. Functions pass
-- the state on: the parser's `ParseState` is the list of the bytes that `st->p` has before it, a
-- buffer is its fragments' bytes, and a circular buffer is a record with the fields of the struct.
-- A C string is a list of bytes without its NUL, so a read at the end of it gives 0. Assertions
-- and errors are values of `Result` or `none`.
--
-- Integers are natural numbers with the wrap-around of their type written out: `unsigned` and
-- `uint32_t` wrap at 2 ^ 32, and the 31 bits of `line_start` at 2 ^ 31. Sums of `size_t` and the
-- parser's lengths are written plainly, since they count bytes in memory.
--
-- Loops run on fuel, one more than a measure of their state (Prelude/Loop): the bytes left of a
-- line, a word or a text, twice the bytes left to append and one, the lines of a circular buffer,
-- the bytes of input held, or the words of a command line. Each round makes the measure smaller, so
-- the fuel is enough. The search of a table of ranges goes on the accessibility of the range left
-- (Prelude/Measure), `ended_jobs_trim` as many rounds as there are jobs, and digits are taken with
-- fuel one above the number.
--
-- The retained children are trimmed by recursion on their list, and the chain of copied descriptors
-- is followed with the hops that `resolve_dup_fds` allows itself, one more than there are
-- descriptors, so neither has fuel.
--
-- A child has two logs that the code has not: the descriptors given to close() and the callbacks
-- called; `process_closed` stands for libuv's handle of the process. A descriptor number is a natural
-- number, so -1 is `none`, and the calls with a negative number, which find nothing, are left out.
-- What io() does is a list of calls of `yc_child_fd_close` and `yc_child_fd_watch`; the callbacks
-- closed() and done() do nothing to the child.
--
-- Parameters: the environment that `getenv` reads, the room for data in a native fragment,
-- `strtoul` and its kin, the start of a child (with its process id where it succeeds), the answers
-- of the system and libuv to `yc_child_new` (a record `Os`: open, pipe, socketpair, fcntl, uv_spawn,
-- uv_poll_init), the children that each call of ready_to_spawn() starts, the results
-- of the calls of `write`, the callbacks of the command line, and what a back end's `job_ended`
-- makes of `max_ended_jobs`.
--
-- Bounds of the theorems: a circular buffer holds at most 2 ^ 31 bytes and lines, and its limit on
-- a line is below its size (a line as long as the buffer cannot be told from an empty one); a screen
-- is narrower than 2 ^ 31 columns and has less than 2 ^ 32 lines; fewer than 2 ^ 64 jobs are started; and a child has fewer than
-- 2 ^ 32 descriptors.
--
-- Not modelled: freeing memory and the growth of the parser's arrays; the wording of messages;
-- `writev`, `readv`, `printf`, placeholders and searches for strings on byte buffers; the main
-- program (src/yapara-main.c), which is glue; of src/yc-child.c, `yc_child_kill` and
-- `yc_child_container_run`, which are calls of libuv, and `yc_child_container_destroy`; raw mode
-- and signals of the terminal, and `yc_term_frame_row`, which only tests call; the registries of
-- back ends and recorders and the calls of their callbacks, the back ends and the recorder
-- (src/yc-ui-plain.c and its kin, src/yc-recorder-jobs.c); the usage that src/yc-cmdline.c
-- prints, and its modes, which no function adds; src/yc-rbtree-macros.h, a general header;
-- src/old, which the build does not use. Of modelled functions: the last assertion of
-- `yc_buffer_read`, which holds on valid buffers; the error of a mode that is none of
-- `YcChildFdMode`; and the products of 32 bits that give a slot of `line_data` its address, since
-- the slots are a list. The shortcuts of options hold pointers in the code and names in the model,
-- which differ only for an option with `=` in its name.
pub mod Prelude
pub mod Digits
pub mod Common
pub mod Term
pub mod Ui
pub mod Cmdline
pub mod Shell
pub mod Buffer
pub mod Child
pub mod CircularBuffer
pub mod Tests
