-- ===== src/Child/Placed.antt =====
-- No event moves a child in its container.
use yapara_c.Prelude.{
  ℕ, true, false, List, [], ◌∷◌, Option, none, some, ◌≡◌, refl, ◌∙◌, ◌++◌, ◌+◌, ◌-◌, ◌%◌, ◌^◌, set,
  get_elem?, ◌||◌, ◌&&◌, not, ◌==◌, Bool-cases, inl, inr,
}
use yapara_c.Child.Defs.{
  is_some, FdEvents, Fd, Child, IoAction, io, close, watch, check_done, is_finished, emit_done,
  release_handle, watch_found, fd_watch, let_go, shut_fd, close_pipe, close_found, fd_close, get_fd,
  do_action, do_actions, with_io, hang_up, poll_cb, poll_gone, poll_closed_cb, exit_cb,
  process_closed_cb,
}
use yapara_c.Child.Events.{Step, exited, process_gone, polled, poll_closed, app}

abbrev pub IsPlaced : Child → Child → Type 0
IsPlaced child after = (after.container_index ≡ child.container_index) × (after.pid ≡ child.pid)

two_moves : (a b c : Child) → IsPlaced a b → IsPlaced b c → IsPlaced a c
two_moves a b c (i, p) (j, q) = (j ∙ i, q ∙ p)

check_done-IsPlaced : (child : Child) → IsPlaced child (check_done child)
unfolding check_done emit_done
check_done-IsPlaced child = elim (Bool-cases (is_finished child)) [
  | inl finished ↦ rw finished (refl, refl)
  | inr unfinished ↦ rw unfinished (refl, refl)
]

release_handle-IsPlaced : (child : Child) → IsPlaced child (release_handle child)
unfolding release_handle
release_handle-IsPlaced child =
    let fewer : Child = record child {
      n_uv_handles = (child.n_uv_handles + (2 ^ 64 - 1)) % 2 ^ 64;
    } in
    check_done-IsPlaced fewer

close_pipe-IsPlaced :
    (child_fd i : ℕ) (cfd : Fd) (o : Option ℕ) (child : Child)
    → IsPlaced child (close_pipe child_fd i cfd o child)
unfolding close_pipe let_go
close_pipe-IsPlaced child_fd i cfd none child = (refl, refl)
close_pipe-IsPlaced child_fd i cfd (some pipe_fd) child =
    let shut = shut_fd pipe_fd cfd in
    elim (Bool-cases (shut.poll_inited || is_some shut.closing_fd)) [
      | inl waits ↦ rw waits (refl, refl)
      | inr direct ↦ rw direct (check_done-IsPlaced (let_go child_fd pipe_fd i cfd child))
    ]

fd_close-IsPlaced : (child_fd : ℕ) (child : Child) → IsPlaced child (fd_close child_fd child)
unfolding fd_close
fd_close-IsPlaced child_fd child = by_place (get_fd child_fd child.fds)
  where
    by_place : (o : Option (ℕ × Fd)) → IsPlaced child (close_found child_fd o child)
    by_place none = unfold close_found in (refl, refl)
    by_place (some (i, cfd)) =
        unfold close_found in close_pipe-IsPlaced child_fd i cfd cfd.pipe_fd child

fd_watch-IsPlaced :
    (child_fd : ℕ) (events : FdEvents) (child : Child)
    → IsPlaced child (fd_watch child_fd events child)
unfolding fd_watch
fd_watch-IsPlaced child_fd events child = by_place (get_fd child_fd child.fds)
  where
    by_place : (o : Option (ℕ × Fd)) → IsPlaced child (watch_found events o child)
    by_place none = unfold watch_found in (refl, refl)
    by_place (some (i, cfd)) = unfold watch_found in (refl, refl)

do_action-IsPlaced : (action : IoAction) (child : Child) → IsPlaced child (do_action action child)
unfolding do_action
do_action-IsPlaced (close child_fd) child = fd_close-IsPlaced child_fd child
do_action-IsPlaced (watch child_fd events) child = fd_watch-IsPlaced child_fd events child

do_actions-IsPlaced :
    (actions : List IoAction) (child : Child) → IsPlaced child (do_actions actions child)
unfolding do_actions
do_actions-IsPlaced [] child = (refl, refl)
do_actions-IsPlaced (action ∷ actions) child =
    two_moves child (do_action action child) (do_actions actions (do_action action child))
      (do_action-IsPlaced action child) (do_actions-IsPlaced actions (do_action action child))

with_io-IsPlaced :
    (actions : List IoAction) (i : ℕ) (cfd : Fd) (o : Option ℕ) (child : Child)
    → IsPlaced child (with_io actions i cfd o child)
unfolding with_io
with_io-IsPlaced actions i cfd none child = (refl, refl)
with_io-IsPlaced actions i cfd (some pipe_fd) child =
    let told : Child = record child {
      calls = child.calls ++ io cfd.child_fd pipe_fd cfd.revents ∷ [];
    } in
    elim (Bool-cases ((cfd.revents.readable || cfd.revents.writable) && child.callbacks.has_io)) [
      | inl called ↦ rw called (do_actions-IsPlaced actions told)
      | inr silent ↦ rw silent (refl, refl)
    ]

hang_up-IsPlaced :
    (child_fd : ℕ) (o : Option Fd) (child : Child) → IsPlaced child (hang_up child_fd o child)
unfolding hang_up
hang_up-IsPlaced child_fd none child = (refl, refl)
hang_up-IsPlaced child_fd (some cfd) child =
    elim (Bool-cases (is_some cfd.pipe_fd && (cfd.revents.hangup && not cfd.watch.readable))) [
      | inl final ↦ rw final (fd_close-IsPlaced child_fd child)
      | inr going ↦ rw going (refl, refl)
    ]

poll_gone-IsPlaced :
    (i : ℕ) (cfd : Fd) (o : Option ℕ) (child : Child) → IsPlaced child (poll_gone i cfd o child)
unfolding poll_gone
poll_gone-IsPlaced i cfd none child = (refl, refl)
poll_gone-IsPlaced i cfd (some fd) child = (refl, refl)

pub Step-IsPlaced : {child after : Child} → Step child after → IsPlaced child after
unfolding exit_cb process_closed_cb poll_cb poll_closed_cb
Step-IsPlaced (exited exit_status term_signal child running) =
    elim (Bool-cases (term_signal == 0)) [
      | inl normal ↦ rw normal (refl, refl)
      | inr killed ↦ rw killed (refl, refl)
    ]
Step-IsPlaced (process_gone child ended still) =
    release_handle-IsPlaced (record child { process_closed = true })
Step-IsPlaced (polled actions true events i cfd child at started) =
    fd_close-IsPlaced cfd.child_fd child
Step-IsPlaced (polled actions false events i cfd child at started) =
    let told : Fd = record cfd { revents = events } in
    let seen : Child = record child { fds = set child.fds i told } in
    let after = with_io actions i told cfd.pipe_fd seen in
    two_moves child after (hang_up cfd.child_fd (get_elem? after.fds i) after)
      (with_io-IsPlaced actions i told cfd.pipe_fd seen)
      (hang_up-IsPlaced cfd.child_fd (get_elem? after.fds i) after)
Step-IsPlaced (poll_closed i cfd child at closing) =
    let gone = poll_gone i cfd cfd.closing_fd child in
    two_moves child gone (release_handle gone) (poll_gone-IsPlaced i cfd cfd.closing_fd child)
      (release_handle-IsPlaced gone)
Step-IsPlaced (app action child) = do_action-IsPlaced action child
