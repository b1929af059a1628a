-- ===== src/Child/Defs.antt =====
-- A child process and its pipes, from src/yc-child.h and src/yc-child.c: how libuv's events and
-- the application's calls change it.
use yapara_c.Prelude.{
  ℕ, suc, ◌+◌, ◌-◌, ◌%◌, ◌^◌, Bool, true, false, not, ◌&&◌, ◌||◌, List, [], ◌∷◌, ◌++◌, Option, none,
  some, ltb, ◌==◌, if◌then◌else◌, get_elem?, set, drop,
}
use yapara_c.Shell.Types.{FdMode, ChildStatus, status_exited, status_killed}

abbrev pub is_some {ℓ} : {A : Type ℓ} → Option A → Bool
is_some none = false
is_some (some a) = true

-- `YcChildFdEvents`, a set of flags.
pub record FdEvents : Type 0 where
  pub readable : Bool
  pub writable : Bool
  pub hangup : Bool

abbrev pub no_events : FdEvents
no_events = record { readable = false; writable = false; hangup = false }

-- `YcChildFd`. A descriptor of -1 is `none`.
pub record Fd : Type 0 where
  pub child_fd : ℕ
  pub pipe_fd : Option ℕ
  pub mode : FdMode
  pub dup_fd : ℕ
  pub is_in : Bool
  pub is_out : Bool
  pub revents : FdEvents
  pub watch : FdEvents
  pub poll_inited : Bool
  pub poll_started : Bool
  pub closing_fd : Option ℕ

-- Which of `YcChildCallbacks` are not NULL.
pub record Callbacks : Type 0 where
  pub has_io : Bool
  pub has_closed : Bool
  pub has_done : Bool

-- A call of a callback, with its arguments.
pub data Call : Type 0 where
  io : (child_fd pipe_fd : ℕ) (revents : FdEvents) → Call
  closed : (child_fd pipe_fd : ℕ) → Call
  done : Call

-- `YcChild`; `fds` is `fds[3]` and then `other_fds`. `process_closed` is libuv's side of `process`:
-- its close callback has run. `os_closed` and `calls` log the descriptors that were given to close()
-- and the callbacks that were called.
pub record Child : Type 0 where
  pub pid : ℕ
  pub fds : List Fd
  pub callbacks : Callbacks
  pub status : ChildStatus
  pub status_value : ℕ
  pub n_uv_handles : ℕ
  pub process_exited : Bool
  pub done_emitted : Bool
  pub container_index : ℕ
  pub process_closed : Bool
  pub os_closed : List ℕ
  pub calls : List Call

-- `yc_child_get_fd`: the place of the descriptor and what it holds.
unfoldable pub at_index : ℕ → Option Fd → Option (ℕ × Fd)
at_index i none = none
at_index i (some cfd) = some (i, cfd)

unfoldable pub search_fd : ℕ → ℕ → List Fd → Option (ℕ × Fd)
search_fd child_fd i [] = none
search_fd child_fd i (cfd ∷ fds) =
    let rest = search_fd child_fd (suc i) fds in
    if cfd.child_fd == child_fd then some (i, cfd) else rest

unfoldable pub get_fd : ℕ → List Fd → Option (ℕ × Fd)
unfolding at_index search_fd
get_fd child_fd fds =
    if ltb child_fd 3
    then at_index child_fd (get_elem? fds child_fd)
    else search_fd child_fd 3 (drop 3 fds)

-- `child_check_done`, up to the child's leaving its container.
unfoldable pub is_finished : Child → Bool
is_finished child = not child.done_emitted && child.process_exited && (child.n_uv_handles == 0)

unfoldable pub emit_done : Child → Child
emit_done child = record child {
  done_emitted = true;
  calls = if child.callbacks.has_done then child.calls ++ done ∷ [] else child.calls;
}

unfoldable pub check_done : Child → Child
unfolding is_finished emit_done
check_done child = if is_finished child then emit_done child else child

-- `child->n_uv_handles--`, then `child_check_done`.
unfoldable pub release_handle : Child → Child
unfolding check_done
release_handle child =
    check_done (record child { n_uv_handles = (child.n_uv_handles + (2 ^ 64 - 1)) % 2 ^ 64 })

-- `child_fd_apply_watch`
unfoldable pub apply_watch : Fd → Fd
apply_watch cfd =
    if not cfd.poll_inited || not (is_some cfd.pipe_fd)
    then cfd
    else record cfd { poll_started = cfd.watch.readable || cfd.watch.writable }

-- `yc_child_fd_watch`
unfoldable pub watch_fd : FdEvents → Fd → Fd
unfolding apply_watch
watch_fd events cfd =
    if not (is_some cfd.pipe_fd)
    then cfd
    else apply_watch (record cfd { watch = record events { hangup = false } })

unfoldable pub watch_found : FdEvents → Option (ℕ × Fd) → Child → Child
unfolding watch_fd
watch_found events none child = child
watch_found events (some (i, cfd)) child = record child {
  fds = set child.fds i (watch_fd events cfd);
}

unfoldable pub fd_watch : ℕ → FdEvents → Child → Child
unfolding get_fd watch_found
fd_watch child_fd events child = watch_found events (get_fd child_fd child.fds) child

-- `yc_child_fd_close`: the descriptor once it is given up, ...
unfoldable pub shut_fd : ℕ → Fd → Fd
shut_fd pipe_fd cfd = record cfd {
  pipe_fd = none;
  watch = no_events;
  poll_inited = false;
  poll_started = cfd.poll_started && not cfd.poll_inited;
  closing_fd = if cfd.poll_inited then some pipe_fd else cfd.closing_fd;
}

-- ... the child, up to the call of closed(), ...
unfoldable pub let_go : ℕ → ℕ → ℕ → Fd → Child → Child
unfolding shut_fd
let_go child_fd pipe_fd i cfd child = record child {
  fds = set child.fds i (shut_fd pipe_fd cfd);
  os_closed = if cfd.poll_inited then child.os_closed else child.os_closed ++ pipe_fd ∷ [];
  calls =
      if child.callbacks.has_closed
      then child.calls ++ closed child_fd pipe_fd ∷ []
      else child.calls;
}

-- ... and the whole.
unfoldable pub close_pipe : ℕ → ℕ → Fd → Option ℕ → Child → Child
unfolding let_go shut_fd check_done
close_pipe child_fd i cfd none child = child
close_pipe child_fd i cfd (some pipe_fd) child =
    let gone = let_go child_fd pipe_fd i cfd child in
    let shut = shut_fd pipe_fd cfd in
    if shut.poll_inited || is_some shut.closing_fd then gone else check_done gone

unfoldable pub close_found : ℕ → Option (ℕ × Fd) → Child → Child
unfolding close_pipe
close_found child_fd none child = child
close_found child_fd (some (i, cfd)) child = close_pipe child_fd i cfd cfd.pipe_fd child

unfoldable pub fd_close : ℕ → Child → Child
unfolding get_fd close_found
fd_close child_fd child = close_found child_fd (get_fd child_fd child.fds) child

-- `child_close_all_fds`
unfoldable pub close_each : List Fd → Child → Child
unfolding fd_close
close_each [] child = child
close_each (cfd ∷ fds) child = close_each fds (fd_close cfd.child_fd child)

unfoldable pub close_all_fds : Child → Child
unfolding close_each
close_all_fds child = close_each child.fds child

-- `child_fd_poll_closed_cb`
unfoldable pub poll_gone : ℕ → Fd → Option ℕ → Child → Child
poll_gone i cfd none child = child
poll_gone i cfd (some fd) child = record child {
  fds = set child.fds i (record cfd { closing_fd = none });
  os_closed = child.os_closed ++ fd ∷ [];
}

unfoldable pub poll_closed_cb : ℕ → Fd → Child → Child
unfolding poll_gone release_handle
poll_closed_cb i cfd child = release_handle (poll_gone i cfd cfd.closing_fd child)

-- What io() does: it may close descriptors, and change what is watched.
pub data IoAction : Type 0 where
  close : (child_fd : ℕ) → IoAction
  watch : (child_fd : ℕ) (events : FdEvents) → IoAction

unfoldable pub do_action : IoAction → Child → Child
unfolding fd_close fd_watch
do_action (close child_fd) child = fd_close child_fd child
do_action (watch child_fd events) child = fd_watch child_fd events child

unfoldable pub do_actions : List IoAction → Child → Child
unfolding do_action
do_actions [] child = child
do_actions (action ∷ actions) child = do_actions actions (do_action action child)

-- `child_fd_poll_cb`: `events` is what libuv reports, `actions` what the application does in io().
-- The call of io(), where there is a pipe (a poll that is started has one), ...
unfoldable pub with_io : List IoAction → ℕ → Fd → Option ℕ → Child → Child
unfolding do_actions
with_io actions i cfd none child = child
with_io actions i cfd (some pipe_fd) child =
    if (cfd.revents.readable || cfd.revents.writable) && child.callbacks.has_io
    then do_actions actions
        (record child { calls = child.calls ++ io cfd.child_fd pipe_fd cfd.revents ∷ [] })
    else child

-- ... what a hangup closes after it, ...
unfoldable pub hang_up : ℕ → Option Fd → Child → Child
unfolding fd_close
hang_up child_fd none child = child
hang_up child_fd (some cfd) child =
    if is_some cfd.pipe_fd && (cfd.revents.hangup && not cfd.watch.readable)
    then fd_close child_fd child
    else child

-- ... and the whole.
unfoldable pub poll_cb : List IoAction → (is_error : Bool) → FdEvents → ℕ → Fd → Child → Child
unfolding with_io hang_up fd_close
poll_cb actions true events i cfd child = fd_close cfd.child_fd child
poll_cb actions false events i cfd child =
    let told : Fd = record cfd { revents = events } in
    let after = with_io actions i told cfd.pipe_fd (record child { fds = set child.fds i told }) in
    hang_up cfd.child_fd (get_elem? after.fds i) after

-- `child_exit_cb`; the cast to `int` keeps 32 bits of the status.
unfoldable pub exit_cb : (exit_status term_signal : ℕ) → Child → Child
exit_cb exit_status term_signal child =
    let exited : Child = record child { process_exited = true } in
    if term_signal == 0
    then record exited { status = status_exited; status_value = exit_status % 2 ^ 32 }
    else record exited { status = status_killed; status_value = term_signal }

-- `child_process_closed_cb`
unfoldable pub process_closed_cb : Child → Child
unfolding release_handle
process_closed_cb child = release_handle (record child { process_closed = true })
