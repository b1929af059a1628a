-- ===== src/Child/Events.antt =====
-- The events in the life of a child process, and what all of them keep.
use yapara_c.Prelude.{
  ℕ, ◌+◌, ◌^◌, ◌<◌, Bool, true, false, not, ◌&&◌, List, [], ◌∷◌, ◌++◌, Option, none, some, ◌≡◌,
  refl, ap, ◌∙◌, arith, ◌==◌, if◌then◌else◌, length, length-set, get_elem?, set, Bool-cases, inl,
  inr,
}
use yapara_c.Child.Defs.{
  is_some, FdEvents, Fd, Child, Call, IoAction, done, closed, check_done, is_finished, emit_done,
  release_handle, shut_fd, let_go, poll_closed_cb, do_action, poll_cb, exit_cb, process_closed_cb,
}
use yapara_c.Child.Measures.{
  total, total-set, handles, held, total-handles, occurrences, times_done, times_done-append,
  IsSound, AreSound, get_elem?-IsSound, set-AreSound,
}

-- libuv's events, for a handle that is there, and the application's calls.
pub data Step : Child → Child → Type 0 where
  exited :
      (exit_status term_signal : ℕ) (child : Child)
      → child.process_exited ≡ false
      → Step child (exit_cb exit_status term_signal child)
  process_gone :
      (child : Child)
      → child.process_exited ≡ true
      → child.process_closed ≡ false
      → Step child (process_closed_cb child)
  polled :
      (actions : List IoAction) (is_error : Bool) (events : FdEvents) (i : ℕ) (cfd : Fd)
      (child : Child)
      → get_elem? child.fds i ≡ some cfd
      → cfd.poll_started ≡ true
      → Step child (poll_cb actions is_error events i cfd child)
  poll_closed :
      (i : ℕ) (cfd : Fd) (child : Child)
      → get_elem? child.fds i ≡ some cfd
      → is_some cfd.closing_fd ≡ true
      → Step child (poll_closed_cb i cfd child)
  app : (action : IoAction) (child : Child) → Step child (do_action action child)

-- What a child comes to.
pub data Reaches (first : Child) : Child → Type 0 where
  start : Reaches first first
  next : {child after : Child} → Reaches first child → Step child after → Reaches first after

-- A child as yc_child_new returns it.
pub record IsFresh (child : Child) : Type 0 where
  pub few : length child.fds < 2 ^ 32
  pub counted : child.n_uv_handles ≡ 1 + total handles child.fds
  pub not_exited : child.process_exited ≡ false
  pub not_done : child.done_emitted ≡ false
  pub not_closed : child.process_closed ≡ false
  pub none_closed : child.os_closed ≡ []
  pub no_calls : child.calls ≡ []
  pub sound : AreSound child.fds

-- What holds of a child, but for the emission of done.
pub record IsSettling (first child : Child) : Type 0 where
  pub few : length child.fds < 2 ^ 32
  pub counted :
      child.n_uv_handles ≡ (if child.process_closed then 0 else 1) + total handles child.fds
  pub exited : (child.process_closed && not child.process_exited) ≡ false
  pub sound : AreSound child.fds
  pub once :
      (d : ℕ) → total (held d) child.fds + occurrences d child.os_closed ≡ total (held d) first.fds
  pub callbacks : child.callbacks ≡ first.callbacks

pub record WellFormed (first child : Child) : Type 0 where
  pub settling : IsSettling first child
  pub emitted : child.done_emitted ≡ (child.n_uv_handles == 0)
  pub told :
      times_done child.calls ≡ (if child.done_emitted && child.callbacks.has_done then 1 else 0)

pub IsFresh-WellFormed : (child : Child) → IsFresh child → WellFormed child child
IsFresh-WellFormed child fresh = record {
  settling = record {
    few = fresh.few;
    counted = ground (arith, fresh.counted, fresh.not_closed);
    exited = ground (arith, fresh.not_closed);
    sound = fresh.sound;
    once = λ d. rw fresh.none_closed (omega arith);
    callbacks = refl;
  };
  emitted = ground (arith, fresh.counted, fresh.not_done);
  told = rw (fresh.no_calls, fresh.not_done) (refl);
}

-- Where done was not emitted yet, child_check_done emits it as it should.
pub check_done-WellFormed :
    (first child : Child)
    → child.done_emitted ≡ false
    → times_done child.calls ≡ 0
    → IsSettling first child
    → WellFormed first (check_done child)
unfolding check_done is_finished emit_done
check_done-WellFormed first child fresh silent mid = elim (Bool-cases (is_finished child)) [
  | inl finished ↦ rw finished (record {
    settling = record {
      few = mid.few;
      counted = mid.counted;
      exited = mid.exited;
      sound = mid.sound;
      once = mid.once;
      callbacks = mid.callbacks;
    };
    emitted = ground arith;
    told = ground (arith, times_done-append done child.calls, silent);
  })
  | inr unfinished ↦ rw unfinished (record {
    settling = mid;
    emitted = ground (arith, mid.counted, mid.exited);
    told = ground arith;
  })
]

-- The same after a handle of libuv's is gone that was still counted.
pub release_handle-WellFormed :
    (first child : Child)
    → child.done_emitted ≡ false
    → times_done child.calls ≡ 0
    → child.n_uv_handles ≡ 1 + ((if child.process_closed then 0 else 1) + total handles child.fds)
    → length child.fds < 2 ^ 32
    → (child.process_closed && not child.process_exited) ≡ false
    → AreSound child.fds
    → ((d : ℕ)
        → total (held d) child.fds + occurrences d child.os_closed ≡ total (held d) first.fds)
    → child.callbacks ≡ first.callbacks
    → WellFormed first (release_handle child)
unfolding release_handle
release_handle-WellFormed first child fresh silent counted few ended sound once callbacks =
    check_done-WellFormed first _ fresh silent (record {
      few = few;
      counted = ground (arith, counted, few, total-handles child.fds);
      exited = ended;
      sound = sound;
      once = once;
      callbacks = callbacks;
    })

-- A write that keeps what a descriptor holds keeps the rest too.
pub set-IsSettling :
    (first child : Child) (i : ℕ) (cfd changed : Fd) (log : List Call)
    → get_elem? child.fds i ≡ some cfd
    → IsSound changed
    → handles changed ≡ handles cfd
    → ((d : ℕ) → held d changed ≡ held d cfd)
    → IsSettling first child
    → IsSettling first (record child { fds = set child.fds i changed; calls = log })
set-IsSettling first child i cfd changed log at ok same_handles same_held wf = record {
  few = rw (length-set child.fds i changed) wf.few;
  counted = omega (arith, wf.counted, same_handles, total-set handles child.fds i cfd changed at);
  exited = wf.exited;
  sound = set-AreSound child.fds i changed ok wf.sound;
  once = λ d. omega (arith, wf.once d, same_held d, total-set (held d) child.fds i cfd changed at);
  callbacks = wf.callbacks;
}

pub no_closing :
    {pipe_fd : ℕ} (pipe closing : Option ℕ)
    → pipe ≡ some pipe_fd
    → (is_some pipe && is_some closing) ≡ false
    → closing ≡ none
no_closing none closing piped apart = absurd (ground arith)
no_closing (some fd) none piped apart = refl
no_closing (some fd) (some fd2) piped apart = absurd (ground arith)

-- An open pipe has a poll, and nothing that is still being closed.
pub piped_lem :
    (cfd : Fd) (pipe_fd : ℕ)
    → cfd.pipe_fd ≡ some pipe_fd
    → IsSound cfd
    → (cfd.poll_inited ≡ true) × (cfd.closing_fd ≡ none)
piped_lem cfd pipe_fd piped (inited, started, apart) =
    (inited ∙ ap is_some piped, no_closing cfd.pipe_fd cfd.closing_fd piped apart)

pub shut_fd_lem :
    (cfd : Fd) (pipe_fd : ℕ)
    → cfd.pipe_fd ≡ some pipe_fd
    → IsSound cfd
    → IsSound (shut_fd pipe_fd cfd)
      × (handles (shut_fd pipe_fd cfd) ≡ handles cfd)
      × ((d : ℕ) → held d (shut_fd pipe_fd cfd) ≡ held d cfd)
unfolding shut_fd
shut_fd_lem cfd pipe_fd piped ok =
    let (inited, unclosed) = piped_lem cfd pipe_fd piped ok in
    ((refl, ground arith, refl), ground arith, λ d. ground arith)

pub let_go-WellFormed :
    (first child : Child) (child_fd pipe_fd i : ℕ) (cfd : Fd)
    → get_elem? child.fds i ≡ some cfd
    → cfd.pipe_fd ≡ some pipe_fd
    → WellFormed first child
    → WellFormed first (let_go child_fd pipe_fd i cfd child)
unfolding let_go
let_go-WellFormed first child child_fd pipe_fd i cfd at piped wf =
    let shut = shut_fd pipe_fd cfd in
    let ok = get_elem?-IsSound child.fds i cfd at wf.settling.sound in
    let (inited, unclosed) = piped_lem cfd pipe_fd piped ok in
    let (sound, same_handles, same_held) = shut_fd_lem cfd pipe_fd piped ok in
    let told =
      if child.callbacks.has_closed
      then child.calls ++ closed child_fd pipe_fd ∷ []
      else child.calls in
    let settled =
      set-IsSettling first child i cfd shut told at sound same_handles same_held wf.settling in
    record {
      settling = record {
        few = settled.few;
        counted = settled.counted;
        exited = settled.exited;
        sound = settled.sound;
        once = λ d.
            ap
              (λ (b : Bool).
                total (held d) (set child.fds i shut)
                + occurrences d (if b then child.os_closed else child.os_closed ++ pipe_fd ∷ []))
              inited
            ∙ settled.once d;
        callbacks = settled.callbacks;
      };
      emitted = wf.emitted;
      told = ground (arith, wf.told, times_done-append (closed child_fd pipe_fd) child.calls);
    }
