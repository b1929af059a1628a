-- ===== src/Child/Lifecycle.antt =====
-- What holds of a child process after any events in its life.
use yapara_c.Prelude.{
  ℕ, ◌+◌, ◌≤◌, ◌<◌, Bool, true, false, ◌&&◌, List, [], ◌∷◌, Option, none, some, ◌≡◌, refl, ap, sym,
  ◌∙◌, subst, arith, ◌==◌, if◌then◌else◌, length-set, get_elem?, set, Bool-cases, Option-cases, inl,
  inr, ◌⊎◌, ◌↔◌,
}
use yapara_c.Child.Defs.{
  is_some, FdEvents, Fd, Child, IoAction, release_handle, with_io, poll_gone, poll_closed_cb,
  poll_cb, exit_cb, process_closed_cb,
}
use yapara_c.Child.Measures.{
  total, total-set, handles, held, one_if, occurrences, occurrences-append, times_done, IsSound,
  AreSound, get_elem?-IsSound, set-AreSound,
}
use yapara_c.Child.Events.{
  Step, exited, process_gone, polled, poll_closed, app, Reaches, start, next, IsFresh, WellFormed,
  IsFresh-WellFormed, release_handle-WellFormed, set-IsSettling,
}
use yapara_c.Child.Calls.{
  IsHarmless, fd_close-IsHarmless, with_io-IsHarmless, hang_up-IsHarmless, do_action-WellFormed,
  Keeps_trans,
}

pub poll_cb-IsHarmless :
    (first child : Child) (actions : List IoAction) (is_error : Bool) (events : FdEvents) (i : ℕ)
    (cfd : Fd)
    → get_elem? child.fds i ≡ some cfd
    → WellFormed first child
    → IsHarmless first child (poll_cb actions is_error events i cfd child)
unfolding poll_cb
poll_cb-IsHarmless first child actions true events i cfd at wf =
    fd_close-IsHarmless first child cfd.child_fd wf
poll_cb-IsHarmless first child actions false events i cfd at wf =
    let told : Fd = record cfd { revents = events } in
    let seen : Child = record child { fds = set child.fds i told } in
    let after = with_io actions i told cfd.pipe_fd seen in
    let ok = get_elem?-IsSound child.fds i cfd at wf.settling.sound in
    let seen_WellFormed : WellFormed first seen = record {
      settling =
          set-IsSettling first child i cfd told child.calls at ok refl (λ d. refl) wf.settling;
      emitted = wf.emitted;
      told = wf.told;
    } in
    let (mid, kept) = with_io-IsHarmless first seen actions i told cfd.pipe_fd seen_WellFormed in
    let (last, still) = hang_up-IsHarmless first after cfd.child_fd (get_elem? after.fds i) mid in
    (
      last,
      Keeps_trans child seen _
          (record {
            done_emitted = refl;
            n_uv_handles = refl;
            process_exited = refl;
            process_closed = refl;
          })
          (Keeps_trans seen after _ kept still),
    )

exit_cb-WellFormed :
    (first child : Child) (exit_status term_signal : ℕ)
    → child.process_exited ≡ false
    → WellFormed first child
    → WellFormed first (exit_cb exit_status term_signal child)
unfolding exit_cb
exit_cb-WellFormed first child exit_status term_signal running wf =
    elim (Bool-cases (term_signal == 0)) [
      | inl normal ↦ rw normal (record {
        settling = record {
          few = wf.settling.few;
          counted = wf.settling.counted;
          exited = ground arith;
          sound = wf.settling.sound;
          once = wf.settling.once;
          callbacks = wf.settling.callbacks;
        };
        emitted = wf.emitted;
        told = wf.told;
      })
      | inr killed ↦ rw killed (record {
        settling = record {
          few = wf.settling.few;
          counted = wf.settling.counted;
          exited = ground arith;
          sound = wf.settling.sound;
          once = wf.settling.once;
          callbacks = wf.settling.callbacks;
        };
        emitted = wf.emitted;
        told = wf.told;
      })
    ]

-- A child with a handle left was not done, and done() was not called.
pub waiting_lem :
    (first child : Child)
    → 0 < child.n_uv_handles
    → WellFormed first child
    → (child.done_emitted ≡ false) × (times_done child.calls ≡ 0)
waiting_lem first child left wf =
    let waiting : child.done_emitted ≡ false = ground (arith, wf.emitted) in
    (waiting, ground (arith, wf.told, waiting))

process_closed_cb-WellFormed :
    (first child : Child)
    → child.process_exited ≡ true
    → child.process_closed ≡ false
    → WellFormed first child
    → WellFormed first (process_closed_cb child)
unfolding process_closed_cb
process_closed_cb-WellFormed first child ended still wf =
    let (waiting, silent) =
      waiting_lem first child (ground (arith, wf.settling.counted, still)) wf in
    release_handle-WellFormed first (record child { process_closed = true }) waiting silent
      (ground (arith, wf.settling.counted, still)) wf.settling.few (ground arith) wf.settling.sound
      wf.settling.once wf.settling.callbacks

-- A descriptor whose poll is being closed counts as one handle, and not after.
pub freed_lem :
    (cfd : Fd) (fd : ℕ)
    → cfd.closing_fd ≡ some fd
    → IsSound cfd
    → IsSound (record cfd { closing_fd = none })
      × (handles cfd ≡ 1 + handles (record cfd { closing_fd = none }))
freed_lem cfd fd there (inited, started, apart) =
    let unpiped : is_some cfd.pipe_fd ≡ false = ground arith in
    ((inited, started, ground arith), ground arith)

poll_gone-WellFormed :
    (first child : Child) (i : ℕ) (cfd : Fd) (fd : ℕ)
    → get_elem? child.fds i ≡ some cfd
    → cfd.closing_fd ≡ some fd
    → WellFormed first child
    → WellFormed first (release_handle (poll_gone i cfd (some fd) child))
unfolding poll_gone
poll_gone-WellFormed first child i cfd fd at there wf =
    let after : Fd = record cfd { closing_fd = none } in
    let ok = get_elem?-IsSound child.fds i cfd at wf.settling.sound in
    let (sound, freed) = freed_lem cfd fd there ok in
    let fewer = total-set handles child.fds i cfd after at in
    let (waiting, silent) =
      waiting_lem first child (omega (arith, wf.settling.counted, freed, fewer)) wf in
    release_handle-WellFormed first (poll_gone i cfd (some fd) child) waiting silent
      (omega (arith, wf.settling.counted, freed, fewer))
      (rw (length-set child.fds i after) wf.settling.few) wf.settling.exited
      (set-AreSound child.fds i after sound wf.settling.sound)
      (λ d.
        let moved : held d cfd ≡ (if fd == d then 1 else 0) + held d after =
          rw there (omega arith) in
        omega (
          arith,
          wf.settling.once d,
          moved,
          total-set (held d) child.fds i cfd after at,
          occurrences-append d fd child.os_closed,
        ))
      wf.settling.callbacks

pub poll_closed_cb-WellFormed :
    (first child : Child) (i : ℕ) (cfd : Fd)
    → get_elem? child.fds i ≡ some cfd
    → is_some cfd.closing_fd ≡ true
    → WellFormed first child
    → WellFormed first (poll_closed_cb i cfd child)
unfolding poll_closed_cb
poll_closed_cb-WellFormed first child i cfd at closing wf = elim (Option-cases cfd.closing_fd) [
  | inl gone ↦ absurd (ground arith)
  | inr (fd, there) ↦
      subst (λ o. WellFormed first (release_handle (poll_gone i cfd o child))) (sym there)
        (poll_gone-WellFormed first child i cfd fd at there wf)
]

pub Step-WellFormed :
    (first : Child) {child after : Child}
    → Step child after
    → WellFormed first child
    → WellFormed first after
Step-WellFormed first (exited exit_status term_signal child running) wf =
    exit_cb-WellFormed first child exit_status term_signal running wf
Step-WellFormed first (process_gone child ended still) wf =
    process_closed_cb-WellFormed first child ended still wf
Step-WellFormed first (polled actions is_error events i cfd child at started) wf =
    let (after, kept) = poll_cb-IsHarmless first child actions is_error events i cfd at wf in after
Step-WellFormed first (poll_closed i cfd child at closing) wf =
    poll_closed_cb-WellFormed first child i cfd at closing wf
Step-WellFormed first (app action child) wf = do_action-WellFormed first child action wf

pub Reaches-WellFormed :
    {first child : Child} → IsFresh first → Reaches first child → WellFormed first child
Reaches-WellFormed {first} fresh start = IsFresh-WellFormed first fresh
Reaches-WellFormed {first} fresh (next reached step) =
    Step-WellFormed first step (Reaches-WellFormed fresh reached)

unheld :
    (d : ℕ) (pipe closing : Option ℕ)
    → is_some pipe ≡ false
    → is_some closing ≡ false
    → one_if d pipe + one_if d closing ≡ 0
unheld d none none p c = refl
unheld d (some a) closing p c = absurd (ground arith)
unheld d none (some b) p c = absurd (ground arith)

total-handles-total-held :
    (fds : List Fd) → AreSound fds → total handles fds ≡ 0 → (d : ℕ) → total (held d) fds ≡ 0
total-handles-total-held [] sound none_left d = refl
total-handles-total-held (cfd ∷ fds) ((inited, started, apart), sound) none_left d =
    let here : handles cfd ≡ 0 = omega arith in
    let nothing = unheld d cfd.pipe_fd cfd.closing_fd (ground arith) (ground arith) in
    omega (arith, total-handles-total-held fds sound (omega arith) d, nothing)

-- Whatever happens in the life of a child that yc_child_new returned, `done_emitted` is set exactly
-- when its process is reaped and no poll handle of its pipes is left, and done() was called once
-- then, where there is one, and never before.
pub done-exactly :
    {first child : Child}
    → IsFresh first
    → Reaches first child
    → ((child.done_emitted ≡ true)
        ↔ ((child.process_closed ≡ true) × (total handles child.fds ≡ 0)))
      × (times_done child.calls ≡ (if child.done_emitted && first.callbacks.has_done then 1 else 0))
done-exactly {first} {child} fresh reached =
    let wf = Reaches-WellFormed fresh reached in
    (
      (
        λ emitted. (
          ground (arith, wf.emitted, wf.settling.counted),
          ground (arith, wf.emitted, wf.settling.counted),
        ),
        λ (gone, unheld). ground (arith, wf.emitted, wf.settling.counted),
      ),
      wf.told ∙ ap (λ c. if child.done_emitted && c.has_done then 1 else 0) wf.settling.callbacks,
    )

-- Whatever happens in the life of a child that yc_child_new returned, no descriptor of its pipes is
-- closed more often than a pipe had it; and once done is emitted, just as often.
pub done-closed :
    {first child : Child}
    → IsFresh first
    → Reaches first child
    → ((d : ℕ) → occurrences d child.os_closed ≤ total (held d) first.fds)
      × ((child.done_emitted ≡ false)
          ⊎ ((d : ℕ) → occurrences d child.os_closed ≡ total (held d) first.fds))
done-closed {first} {child} fresh reached =
    let wf = Reaches-WellFormed fresh reached in
    (
      λ d. omega (arith, wf.settling.once d),
      elim (Bool-cases child.done_emitted) [
        | inl emitted ↦ inr (λ d. omega (
          arith,
          wf.settling.once d,
          total-handles-total-held child.fds wf.settling.sound
              (ground (arith, wf.emitted, wf.settling.counted)) d,
        ))
        | inr waiting ↦ inl waiting
      ],
    )
