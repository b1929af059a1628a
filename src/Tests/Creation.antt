-- ===== src/Tests/Creation.antt =====
-- Children that are created, and the theorems on their creation at concrete inputs.
use yapara_c.Prelude.{
  ℕ, ◌+◌, ◌*◌, true, false, [], ◌∷◌, none, some, ◌≡◌, ◌==◌, if◌then◌else◌, refl, arith,
}
use yapara_c.Shell.Types.{
  FdMode, mode_null, mode_pipe, mode_dup, FdInfo, CreateInfo, status_running,
}
use yapara_c.Child.Defs.{
  Fd, Callbacks, Child, close, exit_cb, do_action, poll_closed_cb, process_closed_cb, no_events,
}
use yapara_c.Child.Measures.{occurrences}
use yapara_c.Child.Events.{exited, process_gone, poll_closed, app, Reaches, start, next}
use yapara_c.Child.FdInit.{Os, Ledger, pipe_failed}
use yapara_c.Child.Create.{Created, refused, created, child_new}
use yapara_c.Child.Creation.{IsBalanced, child_new-IsBalanced, child_new-closed}

-- A system that answers every call.
abbrev os : Os
os = record {
  open_path = λ n path flags. some (20 + n);
  pipe = λ n. some (30 + 2 * n, 31 + 2 * n);
  socketpair = λ n. none;
  set_nonblock = λ fd. true;
  set_cloexec = λ fd. true;
  spawn = λ info stdio. some 7;
  poll_init = λ fd. true;
}

abbrev fd_info : FdMode → ℕ → FdInfo
fd_info mode dup_fd = record {
  is_in = false;
  is_out = false;
  mode = mode;
  filename = none;
  append = false;
  dup_fd = dup_fd;
}

-- `true 2>&1`, with a pipe for its descriptor 1 and one for its descriptor 5.
abbrev info : CreateInfo
info = record {
  env = none;
  argv = (b't' ∷ []) ∷ [];
  program = none;
  fd_infos = fd_info mode_null 0 ∷ fd_info mode_pipe 0 ∷ fd_info mode_dup 1 ∷ [];
  other_fd_infos = record { info = record (fd_info mode_pipe 0) { is_out = true }; fd = 5 } ∷ [];
}

abbrev callbacks : Callbacks
callbacks = record { has_io = true; has_closed = false; has_done = true }

abbrev child_of : Child → Created → Child
child_of child (refused error) = child
child_of child (created made) = made

abbrev nobody : Child
nobody = record {
  pid = 0;
  fds = [];
  callbacks = callbacks;
  status = status_running;
  status_value = 0;
  n_uv_handles = 0;
  process_exited = false;
  done_emitted = false;
  container_index = 0;
  process_closed = false;
  os_closed = [];
  calls = [];
}

abbrev made : Ledger × Created
made = child_new os callbacks 0 1 info

abbrev born : Child
born = let (ledger, result) = made in child_of nobody result

abbrev books : Ledger
books = let (ledger, result) = made in ledger

-- It opens /dev/null and two pipes, and closes what only the child uses.
books_lem :
    books ≡ record { n_calls = 3; opened = 20 ∷ 32 ∷ 33 ∷ 34 ∷ 35 ∷ []; closed = 20 ∷ 33 ∷ 35 ∷ [] }
unfolding child_new
books_lem = refl

-- Without a poll for pipe 34, the other stays.
abbrev no_poll : Os
no_poll = record os { poll_init = λ fd. if fd == 34 then false else true }

-- The second pipe fails: both descriptors that were opened are closed.
failing_lem :
    child_new
      (record os { pipe = λ n. if n == 2 then none else some (30 + 2 * n, 31 + 2 * n) })
      callbacks
      0
      1
      info
    ≡ (
      record { n_calls = 3; opened = 20 ∷ 32 ∷ 33 ∷ []; closed = 20 ∷ 33 ∷ 32 ∷ [] },
      refused pipe_failed,
    )
unfolding child_new
failing_lem = refl

child_new-IsBalanced_example : IsBalanced (child_new no_poll callbacks 0 1 info)
child_new-IsBalanced_example = child_new-IsBalanced no_poll callbacks 0 1 info refl (omega arith)

-- The child exits, both pipes are closed, and libuv closes the polls and the process.
abbrev closing_fd_of : ℕ → ℕ → Fd
closing_fd_of n fd = record {
  child_fd = n;
  pipe_fd = none;
  mode = mode_pipe;
  dup_fd = 0;
  is_in = false;
  is_out = true;
  revents = no_events;
  watch = no_events;
  poll_inited = false;
  poll_started = false;
  closing_fd = some fd;
}

abbrev after_exit : Child
after_exit = exit_cb 0 0 born

abbrev after_one : Child
after_one = do_action (close 1) after_exit

abbrev after_both : Child
after_both = do_action (close 5) after_one

abbrev one_gone : Child
one_gone = poll_closed_cb 1 (closing_fd_of 1 32) after_both

abbrev reaped : Child
reaped = process_closed_cb one_gone

abbrev over : Child
over = poll_closed_cb 3 (closing_fd_of 5 34) reaped

over-Reaches : Reaches born over
unfolding child_new exit_cb do_action poll_closed_cb process_closed_cb
over-Reaches =
    next
      (next
        (next
          (next (next (next start (exited 0 0 born refl)) (app (close 1) after_exit))
            (app (close 5) after_one))
          (poll_closed 1 (closing_fd_of 1 32) after_both refl refl))
        (process_gone one_gone refl refl))
      (poll_closed 3 (closing_fd_of 5 34) reaped refl refl)

over_emitted : over.done_emitted ≡ true
unfolding child_new exit_cb do_action poll_closed_cb process_closed_cb
over_emitted = refl

made_lem : made ≡ (books, created born)
unfolding child_new
made_lem = refl

child_new-closed_example :
    occurrences 32 books.opened ≡ occurrences 32 books.closed + occurrences 32 over.os_closed
child_new-closed_example =
    child_new-closed os callbacks 0 1 info books born over refl (omega arith) made_lem over-Reaches
      over_emitted 32
