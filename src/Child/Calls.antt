-- ===== src/Child/Calls.antt =====
-- What the application's calls, yc_child_fd_close and yc_child_fd_watch, do to a child process.
use yapara_c.Prelude.{
  ℕ, not, ◌&&◌, ◌||◌, List, [], ◌∷◌, ◌++◌, Option, none, some, ◌≡◌, refl, ap, ◌∙◌, arith,
  Bool-cases, Option-cases, inl, inr, ◌⊎◌,
}
use yapara_c.Child.Defs.{
  is_some, FdEvents, Fd, Child, IoAction, io, close, watch, apply_watch, watch_fd, watch_found,
  fd_watch, shut_fd, let_go, close_pipe, close_found, fd_close, do_action, do_actions, with_io,
  hang_up, get_fd,
}
use yapara_c.Child.Measures.{
  handles, held, times_done-append, IsSound, AreSound, get_elem?-IsSound, get_fd-get_elem?,
}
use yapara_c.Child.Events.{WellFormed, set-IsSettling, piped_lem, let_go-WellFormed}

-- The descriptor that `yc_child_fd_close` gives up, where there is one.
pub record IsOpen (child_fd : ℕ) (child : Child) : Type 0 where
  pub i : ℕ
  pub cfd : Fd
  pub pipe_fd : ℕ
  pub found : get_fd child_fd child.fds ≡ some (i, cfd)
  pub piped : cfd.pipe_fd ≡ some pipe_fd

pub fd_close-cases :
    (child_fd : ℕ) (child : Child)
    → AreSound child.fds
    → (fd_close child_fd child ≡ child)
      ⊎ ((p : IsOpen child_fd child) × (fd_close child_fd child
            ≡ let_go child_fd p.pipe_fd p.i p.cfd child))
unfolding fd_close close_found close_pipe shut_fd
fd_close-cases child_fd child sound = elim (Option-cases (get_fd child_fd child.fds)) [
  | inl missing ↦ inl (rw missing refl)
  | inr ((i, cfd), found) ↦ elim (Option-cases cfd.pipe_fd) [
    | inl shut ↦ inl (rw found (ap (λ o. close_pipe child_fd i cfd o child) shut))
    | inr (pipe_fd, piped) ↦
        let at = get_fd-get_elem? child_fd i child.fds cfd found in
        let (inited, unclosed) =
          piped_lem cfd pipe_fd piped (get_elem?-IsSound child.fds i cfd at sound) in
        inr (
          record { i = i; cfd = cfd; pipe_fd = pipe_fd; found = found; piped = piped },
          rw found (ap (λ o. close_pipe child_fd i cfd o child) piped ∙ ground arith),
        )
  ]
]

pub fd_close-WellFormed :
    (first child : Child) (child_fd : ℕ)
    → WellFormed first child
    → WellFormed first (fd_close child_fd child)
fd_close-WellFormed first child child_fd wf =
    elim (fd_close-cases child_fd child wf.settling.sound) [
      | inl same ↦ rw same wf
      | inr (p, gone) ↦ rw gone (
          let_go-WellFormed first child child_fd p.pipe_fd p.i p.cfd
            (get_fd-get_elem? child_fd p.i child.fds p.cfd p.found) p.piped wf)
    ]

pub watch_fd_lem :
    (events : FdEvents) (cfd : Fd)
    → IsSound cfd
    → IsSound (watch_fd events cfd)
      × (handles (watch_fd events cfd) ≡ handles cfd)
      × ((d : ℕ) → held d (watch_fd events cfd) ≡ held d cfd)
unfolding watch_fd apply_watch
watch_fd_lem events cfd (inited, started, apart) =
    ((ground arith, ground arith, ground arith), ground arith, λ d. ground arith)

pub fd_watch-WellFormed :
    (first child : Child) (child_fd : ℕ) (events : FdEvents)
    → WellFormed first child
    → WellFormed first (fd_watch child_fd events child)
unfolding fd_watch watch_found
fd_watch-WellFormed first child child_fd events wf =
    elim (Option-cases (get_fd child_fd child.fds)) [
      | inl missing ↦ rw missing wf
      | inr ((i, cfd), found) ↦
          let at = get_fd-get_elem? child_fd i child.fds cfd found in
          let ok = get_elem?-IsSound child.fds i cfd at wf.settling.sound in
          let (sound, same_handles, same_held) = watch_fd_lem events cfd ok in
          rw found (record {
            settling =
                set-IsSettling first child i cfd (watch_fd events cfd) child.calls at sound
                  same_handles same_held wf.settling;
            emitted = wf.emitted;
            told = wf.told;
          })
    ]

-- What the application's calls leave as it is.
pub record Keeps (child after : Child) : Type 0 where
  pub done_emitted : after.done_emitted ≡ child.done_emitted
  pub n_uv_handles : after.n_uv_handles ≡ child.n_uv_handles
  pub process_exited : after.process_exited ≡ child.process_exited
  pub process_closed : after.process_closed ≡ child.process_closed

pub Keeps_refl : (child : Child) → Keeps child child
Keeps_refl child = record {
  done_emitted = refl;
  n_uv_handles = refl;
  process_exited = refl;
  process_closed = refl;
}

-- No call of yc_child_fd_close finishes the child: the caller's child is still there.
pub fd_close-Keeps :
    (first child : Child) (child_fd : ℕ)
    → WellFormed first child
    → Keeps child (fd_close child_fd child)
fd_close-Keeps first child child_fd wf = elim (fd_close-cases child_fd child wf.settling.sound) [
  | inl same ↦ rw same (Keeps_refl child)
  | inr (p, gone) ↦ rw gone (
      unfold let_go in
      record {
        done_emitted = refl;
        n_uv_handles = refl;
        process_exited = refl;
        process_closed = refl;
      })
]

fd_watch-Keeps :
    (child : Child) (child_fd : ℕ) (events : FdEvents)
    → Keeps child (fd_watch child_fd events child)
unfolding fd_watch watch_found
fd_watch-Keeps child child_fd events = by_place (get_fd child_fd child.fds)
  where
    by_place : (found : Option (ℕ × Fd)) → Keeps child (watch_found events found child)
    by_place none = Keeps_refl child
    by_place (some (i, cfd)) = record {
      done_emitted = refl;
      n_uv_handles = refl;
      process_exited = refl;
      process_closed = refl;
    }

pub do_action-WellFormed :
    (first child : Child) (action : IoAction)
    → WellFormed first child
    → WellFormed first (do_action action child)
unfolding do_action
do_action-WellFormed first child (close child_fd) wf = fd_close-WellFormed first child child_fd wf
do_action-WellFormed first child (watch child_fd events) wf =
    fd_watch-WellFormed first child child_fd events wf

do_action-Keeps :
    (first child : Child) (action : IoAction)
    → WellFormed first child
    → Keeps child (do_action action child)
unfolding do_action
do_action-Keeps first child (close child_fd) wf = fd_close-Keeps first child child_fd wf
do_action-Keeps first child (watch child_fd events) wf = fd_watch-Keeps child child_fd events

pub Keeps_trans : (a b c : Child) → Keeps a b → Keeps b c → Keeps a c
Keeps_trans a b c ab bc = record {
  done_emitted = bc.done_emitted ∙ ab.done_emitted;
  n_uv_handles = bc.n_uv_handles ∙ ab.n_uv_handles;
  process_exited = bc.process_exited ∙ ab.process_exited;
  process_closed = bc.process_closed ∙ ab.process_closed;
}

-- An operation that keeps the invariant and finishes no child.
abbrev pub IsHarmless : (first child after : Child) → Type 0
IsHarmless first child after = WellFormed first after × Keeps child after

pub do_actions-IsHarmless :
    (first child : Child) (actions : List IoAction)
    → WellFormed first child
    → IsHarmless first child (do_actions actions child)
unfolding do_actions
do_actions-IsHarmless first child [] wf = (wf, Keeps_refl child)
do_actions-IsHarmless first child (action ∷ actions) wf =
    let mid = do_action-WellFormed first child action wf in
    let (after, kept) = do_actions-IsHarmless first (do_action action child) actions mid in
    (after, Keeps_trans child _ _ (do_action-Keeps first child action wf) kept)

pub with_io-IsHarmless :
    (first child : Child) (actions : List IoAction) (i : ℕ) (cfd : Fd) (pipe : Option ℕ)
    → WellFormed first child
    → IsHarmless first child (with_io actions i cfd pipe child)
unfolding with_io
with_io-IsHarmless first child actions i cfd none wf = (wf, Keeps_refl child)
with_io-IsHarmless first child actions i cfd (some pipe_fd) wf =
    elim (Bool-cases ((cfd.revents.readable || cfd.revents.writable) && child.callbacks.has_io)) [
      | inl called ↦ rw called (
          let told : Child = record child {
            calls = child.calls ++ io cfd.child_fd pipe_fd cfd.revents ∷ [];
          } in
          let told_WellFormed : WellFormed first told = record {
            settling = record {
              few = wf.settling.few;
              counted = wf.settling.counted;
              exited = wf.settling.exited;
              sound = wf.settling.sound;
              once = wf.settling.once;
              callbacks = wf.settling.callbacks;
            };
            emitted = wf.emitted;
            told = omega (
              arith,
              wf.told,
              times_done-append (io cfd.child_fd pipe_fd cfd.revents) child.calls,
            );
          } in
          let (after, kept) = do_actions-IsHarmless first told actions told_WellFormed in
          (
            after,
            record {
              done_emitted = kept.done_emitted;
              n_uv_handles = kept.n_uv_handles;
              process_exited = kept.process_exited;
              process_closed = kept.process_closed;
            },
          ))
      | inr silent ↦ rw silent (wf, Keeps_refl child)
    ]

pub fd_close-IsHarmless :
    (first child : Child) (child_fd : ℕ)
    → WellFormed first child
    → IsHarmless first child (fd_close child_fd child)
fd_close-IsHarmless first child child_fd wf =
    (fd_close-WellFormed first child child_fd wf, fd_close-Keeps first child child_fd wf)

pub hang_up-IsHarmless :
    (first child : Child) (child_fd : ℕ) (cfd : Option Fd)
    → WellFormed first child
    → IsHarmless first child (hang_up child_fd cfd child)
unfolding hang_up
hang_up-IsHarmless first child child_fd none wf = (wf, Keeps_refl child)
hang_up-IsHarmless first child child_fd (some cfd) wf =
    elim (Bool-cases (is_some cfd.pipe_fd && (cfd.revents.hangup && not cfd.watch.readable))) [
      | inl final ↦ rw final (fd_close-IsHarmless first child child_fd wf)
      | inr going ↦ rw going (wf, Keeps_refl child)
    ]
