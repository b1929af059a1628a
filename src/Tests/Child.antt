-- ===== src/Tests/Child.antt =====
-- Runs of the child processes, and the theorems on them at concrete inputs.
use yapara_c.Prelude.{
  ◌==◌, ◌+◌, ◌<◌, length, get_elem?, ℕ, ◌≤◌, true, false, ◌&&◌, [], ◌∷◌, Option, none, some, ◌≡◌,
  refl, arith, ◌↔◌, ◌⊎◌, if◌then◌else◌,
}
use yapara_c.Shell.Types.{mode_null, mode_pipe, status_running}
use yapara_c.Child.Defs.{
  no_events, Fd, Child, IoAction, close, exit_cb, poll_cb, do_action, poll_closed_cb,
  process_closed_cb, done, closed, shut_fd,
}
use yapara_c.Child.Measures.{total, handles, held, is_open, occurrences, times_done}
use yapara_c.Child.Events.{
  exited, process_gone, polled, poll_closed, app, Reaches, start, next, IsFresh,
}
use yapara_c.Child.Events as Life
use yapara_c.Child.Container.{Container, container_new, add_child, settle_event}
use yapara_c.Child.Crowd.{IsConsistent}
use yapara_c.Child.Crew as Crew
use yapara_c.Child.Settled.{known}
use yapara_c.Child.Crew.{Reaches-IsConsistent, settle_event-asks}
use yapara_c.Child.Lifecycle.{done-exactly, done-closed}
use yapara_c.Child.Ending.{Closes, ClosesOne, poll, more, stop, done-no_events, n_uv_handles-done}

-- A child's descriptor: /dev/null, or a pipe to it that is polled.
abbrev fd_of : ℕ → Option ℕ → Fd
fd_of n pipe_fd = record {
  child_fd = n;
  pipe_fd = pipe_fd;
  mode = mode_pipe;
  dup_fd = 0;
  is_in = false;
  is_out = true;
  revents = no_events;
  watch = record { readable = true; writable = false; hangup = false };
  poll_inited = true;
  poll_started = true;
  closing_fd = none;
}

abbrev null_fd : Fd
null_fd = record (fd_of 0 none) {
  mode = mode_null;
  watch = no_events;
  poll_inited = false;
  poll_started = false;
}

-- It writes to pipes 10 and 12 of ours.
abbrev newborn : Child
newborn = record {
  pid = 7;
  fds = null_fd ∷ fd_of 1 (some 10) ∷ fd_of 2 (some 12) ∷ [];
  callbacks = record { has_io = true; has_closed = true; has_done = true };
  status = status_running;
  status_value = 0;
  n_uv_handles = 3;
  process_exited = false;
  done_emitted = false;
  container_index = 0;
  process_closed = false;
  os_closed = [];
  calls = [];
}

newborn-IsFresh : IsFresh newborn
newborn-IsFresh = record {
  few = omega arith;
  counted = refl;
  not_exited = refl;
  not_done = refl;
  not_closed = refl;
  none_closed = refl;
  no_calls = refl;
  sound = ((refl, refl, refl), ((refl, refl, refl), ((refl, refl, refl), tt)));
}

-- It exits; the first pipe's poll reports an error; the application closes the second pipe.
abbrev after_exit : Child
after_exit = exit_cb 3 0 newborn

abbrev after_error : Child
after_error = poll_cb [] true no_events 1 (fd_of 1 (some 10)) after_exit

abbrev released : Child
released = do_action (close 2) after_error

released-Reaches : Reaches newborn released
unfolding exit_cb
released-Reaches =
    next
      (next (next start (exited 3 0 newborn refl))
        (polled [] true no_events 1 (fd_of 1 (some 10)) after_exit refl refl))
      (app (close 2) after_error)

-- libuv closes the polls and the process.
abbrev second_gone : Child
second_gone = poll_closed_cb 2 (shut_fd 12 (fd_of 2 (some 12))) released

abbrev reaped : Child
reaped = process_closed_cb second_gone

abbrev last : Child
last = poll_closed_cb 1 (shut_fd 10 (fd_of 1 (some 10))) reaped

last-Reaches : Reaches newborn last
unfolding exit_cb poll_cb do_action poll_closed_cb process_closed_cb shut_fd
last-Reaches =
    next
      (next
        (next released-Reaches (poll_closed 2 (shut_fd 12 (fd_of 2 (some 12))) released refl refl))
        (process_gone second_gone refl refl))
      (poll_closed 1 (shut_fd 10 (fd_of 1 (some 10))) reaped refl refl)

last_calls : last.calls ≡ closed 1 10 ∷ closed 2 12 ∷ done ∷ []
unfolding exit_cb poll_cb do_action poll_closed_cb process_closed_cb shut_fd
last_calls = refl

last_closed : last.os_closed ≡ 12 ∷ 10 ∷ []
unfolding exit_cb poll_cb do_action poll_closed_cb process_closed_cb shut_fd
last_closed = refl

done-exactly_example :
    ((last.done_emitted ≡ true) ↔ ((last.process_closed ≡ true) × (total handles last.fds ≡ 0)))
    × (times_done last.calls ≡ (if last.done_emitted && true then 1 else 0))
done-exactly_example = done-exactly newborn-IsFresh last-Reaches

done-closed_example :
    ((d : ℕ) → occurrences d last.os_closed ≤ total (held d) newborn.fds)
    × ((last.done_emitted ≡ false)
        ⊎ ((d : ℕ) → occurrences d last.os_closed ≡ total (held d) newborn.fds))
done-closed_example = done-closed newborn-IsFresh last-Reaches

last_emitted : last.done_emitted ≡ true
unfolding exit_cb poll_cb do_action poll_closed_cb process_closed_cb shut_fd
last_emitted = refl

done-no_events_example : (action : IoAction) × (do_action (close 1) last ≡ do_action action last)
done-no_events_example =
    done-no_events newborn-IsFresh last-Reaches last_emitted (app (close 1) last)

released_exited : released.process_exited ≡ true
unfolding exit_cb poll_cb do_action
released_exited = refl

released_shut : total is_open released.fds ≡ 0
unfolding exit_cb poll_cb do_action
released_shut = refl

second-Closes : Closes 1 released second_gone
unfolding exit_cb poll_cb do_action poll_closed_cb process_closed_cb shut_fd
second-Closes = more (poll 2 (shut_fd 12 (fd_of 2 (some 12))) released refl refl) (stop second_gone)

n_uv_handles-done_example :
    (1 + second_gone.n_uv_handles ≡ released.n_uv_handles)
    × (second_gone.done_emitted ≡ (1 == released.n_uv_handles))
    × ((second_gone.done_emitted ≡ true) ⊎ ((next : Child) × ClosesOne second_gone next))
n_uv_handles-done_example =
    n_uv_handles-done newborn-IsFresh released-Reaches released_exited released_shut second-Closes

-- A container of one child, which is the one above, one close callback before it is done.
abbrev empty : Container
empty = record (container_new 0 true) { max_done_children = 2 }

abbrev busy : Container
busy = add_child reaped empty

busy-Reaches : Crew.Reaches 0 2 true busy
unfolding exit_cb poll_cb do_action poll_closed_cb process_closed_cb shut_fd
busy-Reaches = Crew.next Crew.start (Crew.added reaped empty refl)

busy_holds : get_elem? busy.children 0 ≡ some reaped
unfolding container_new add_child exit_cb poll_cb do_action poll_closed_cb process_closed_cb shut_fd
busy_holds = refl

last-Step : Life.Step reaped last
unfolding exit_cb poll_cb do_action poll_closed_cb process_closed_cb shut_fd
last-Step = poll_closed 1 (shut_fd 10 (fd_of 1 (some 10))) reaped refl refl

Reaches-IsConsistent_example : IsConsistent (settle_event 0 last busy)
Reaches-IsConsistent_example =
    Reaches-IsConsistent
      (Crew.next busy-Reaches (Crew.event 0 reaped last busy busy_holds last-Step))

settle_event-asks_example :
    (length (settle_event 0 last busy).children < (settle_event 0 last busy).max_children)
    × ((pid : ℕ) → known pid (settle_event 0 last busy) ≡ known pid busy)
    × (((settle_event 0 last busy).ready_idle_started ≡ true) ⊎ (busy.has_ready ≡ false))
settle_event-asks_example =
    settle_event-asks 0 reaped last busy-Reaches busy_holds last-Step last_emitted
