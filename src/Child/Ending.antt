-- ===== src/Child/Ending.antt =====
-- How the life of a child process ends: what is due once it has exited and its pipes are given up,
-- and that nothing of it is left after done().
use yapara_c.Prelude.{
  ◌⊎◌, ◌==◌, ℕ, suc, ◌+◌, ◌-◌, ◌%◌, ◌^◌, ◌≤◌, ◌<◌, true, false, Option, none, some, ◌≡◌, refl, ap,
  ◌∙◌, arith, length, get_elem?, Bool-cases, inl, inr,
}
use yapara_c.Child.Defs.{
  is_some, Fd, Child, IoAction, do_action, is_finished, emit_done, check_done, release_handle,
  poll_gone, poll_closed_cb, process_closed_cb,
}
use yapara_c.Child.Measures.{
  total, total-set, handles, is_open, total-handles, total-get_elem?, closing_left,
  get_elem?-IsSound,
}
use yapara_c.Child.Events.{
  Step, exited, process_gone, polled, poll_closed, app, Reaches, IsFresh, WellFormed,
}
use yapara_c.Child.Lifecycle.{Reaches-WellFormed, Step-WellFormed}

-- Once done is emitted, and the child is freed, no event of libuv's comes for it any more.
pub done-no_events :
    {first child after : Child}
    → IsFresh first
    → Reaches first child
    → child.done_emitted ≡ true
    → Step child after
    → (action : IoAction) × (after ≡ do_action action child)
done-no_events fresh reached emitted (exited exit_status term_signal child running) =
    let wf = Reaches-WellFormed fresh reached in
    absurd (ground (arith, wf.emitted, wf.settling.counted, wf.settling.exited))
done-no_events fresh reached emitted (process_gone child ended still) =
    let wf = Reaches-WellFormed fresh reached in
    absurd (ground (arith, wf.emitted, wf.settling.counted))
done-no_events fresh reached emitted (polled actions is_error events i cfd child at started) =
    let wf = Reaches-WellFormed fresh reached in
    let (inited, only_inited, apart) = get_elem?-IsSound child.fds i cfd at wf.settling.sound in
    let there : handles cfd ≡ 1 = ground arith in
    let counted = total-get_elem? handles child.fds i cfd at in
    absurd (ground (arith, wf.emitted, wf.settling.counted))
done-no_events fresh reached emitted (poll_closed i cfd child at closing) =
    let wf = Reaches-WellFormed fresh reached in
    let there : handles cfd ≡ 1 = ground arith in
    let counted = total-get_elem? handles child.fds i cfd at in
    absurd (ground (arith, wf.emitted, wf.settling.counted))
done-no_events fresh reached emitted (app action child) = (action, refl)

one_down :
    (n m bound : ℕ)
    → 0 < n
    → n ≤ 1 + bound
    → bound < 2 ^ 32
    → m ≡ (n + (2 ^ 64 - 1)) % 2 ^ 64
    → n ≡ suc m
one_down n m bound some_left counted few less = omega arith

handles_few :
    {first : Child} (child : Child)
    → WellFormed first child
    → child.n_uv_handles ≤ 1 + length child.fds
handles_few child wf = ground (arith, wf.settling.counted, total-handles child.fds)

-- libuv calls a close callback that is due.
pub data ClosesOne : Child → Child → Type 0 where
  process :
      (child : Child)
      → child.process_exited ≡ true
      → child.process_closed ≡ false
      → ClosesOne child (process_closed_cb child)
  poll :
      (i : ℕ) (cfd : Fd) (child : Child)
      → get_elem? child.fds i ≡ some cfd
      → is_some cfd.closing_fd ≡ true
      → ClosesOne child (poll_closed_cb i cfd child)

-- So many of them, one after the other.
pub data Closes : ℕ → Child → Child → Type 0 where
  stop : (child : Child) → Closes 0 child child
  more :
      {n : ℕ} {child mid after : Child}
      → ClosesOne child mid
      → Closes n mid after
      → Closes (suc n) child after

abbrev ClosesOne-Step : {child after : Child} → ClosesOne child after → Step child after
ClosesOne-Step (process child ended still) = process_gone child ended still
ClosesOne-Step (poll i cfd child at closing) = poll_closed i cfd child at closing

-- A child that has exited, with no pipe open.
pub record IsReleased (first child : Child) : Type 0 where
  pub ended : child.process_exited ≡ true
  pub shut : total is_open child.fds ≡ 0
  pub well_formed : WellFormed first child

release_handle-fields :
    (child : Child)
    → ((release_handle child).process_exited ≡ child.process_exited)
      × ((release_handle child).fds ≡ child.fds)
      × ((release_handle child).n_uv_handles ≡ (child.n_uv_handles + (2 ^ 64 - 1)) % 2 ^ 64)
unfolding release_handle check_done emit_done
release_handle-fields child =
    elim (Bool-cases (
      is_finished (record child { n_uv_handles = (child.n_uv_handles + (2 ^ 64 - 1)) % 2 ^ 64 }))) [
        | inl finished ↦ rw finished (refl, refl, refl)
        | inr unfinished ↦ rw unfinished (refl, refl, refl)
      ]

handle_left :
    (first child : Child)
    → IsReleased first child
    → 0 < child.n_uv_handles
    → (after : Child) × ClosesOne child after
handle_left first child released left = elim (Bool-cases child.process_closed) [
  | inl gone ↦
      let (i, (cfd, (at, closing))) =
        closing_left child.fds released.well_formed.settling.sound released.shut
          (ground (arith, released.well_formed.settling.counted)) in
      (poll_closed_cb i cfd child, poll i cfd child at closing)
  | inr still ↦ (process_closed_cb child, process child released.ended still)
]

poll_gone-shut :
    (child : Child) (i : ℕ) (cfd : Fd) (o : Option ℕ)
    → get_elem? child.fds i ≡ some cfd
    → (total is_open (poll_gone i cfd o child).fds ≡ total is_open child.fds)
      × ((poll_gone i cfd o child).process_exited ≡ child.process_exited)
      × ((poll_gone i cfd o child).n_uv_handles ≡ child.n_uv_handles)
unfolding poll_gone
poll_gone-shut child i cfd none at = (refl, refl, refl)
poll_gone-shut child i cfd (some fd) at = (
  omega (arith, total-set is_open child.fds i cfd (record cfd { closing_fd = none }) at),
  refl,
  refl,
)

one_less :
    (first : Child) {child after : Child}
    → ClosesOne child after
    → IsReleased first child
    → IsReleased first after × (child.n_uv_handles ≡ suc after.n_uv_handles)
unfolding process_closed_cb poll_closed_cb
one_less first (process child ended still) released =
    let wf = released.well_formed in
    let (same_exited, same_fds, fewer) =
      release_handle-fields (record child { process_closed = true }) in
    (
      record {
        ended = same_exited ∙ ended;
        shut = ap (total is_open) same_fds ∙ released.shut;
        well_formed = Step-WellFormed first (process_gone child ended still) wf;
      },
      one_down child.n_uv_handles _ (length child.fds) (ground (arith, wf.settling.counted, still))
          (handles_few child wf) wf.settling.few fewer,
    )
one_less first (poll i cfd child at closing) released =
    let wf = released.well_formed in
    let (same_exited, same_fds, fewer) =
      release_handle-fields (poll_gone i cfd cfd.closing_fd child) in
    let (still_shut, still_exited, as_many) = poll_gone-shut child i cfd cfd.closing_fd at in
    (
      record {
        ended = same_exited ∙ still_exited ∙ released.ended;
        shut = ap (total is_open) same_fds ∙ still_shut ∙ released.shut;
        well_formed = Step-WellFormed first (poll_closed i cfd child at closing) wf;
      },
      let here : handles cfd ≡ 1 = ground arith in
          one_down child.n_uv_handles _ (length child.fds)
            (omega (arith, wf.settling.counted, here, total-get_elem? handles child.fds i cfd at))
            (handles_few child wf) wf.settling.few
            (fewer ∙ ap (λ n. (n + (2 ^ 64 - 1)) % 2 ^ 64) as_many),
    )

Closes-IsReleased :
    (first : Child) {n : ℕ} {child after : Child}
    → Closes n child after
    → IsReleased first child
    → IsReleased first after × (n + after.n_uv_handles ≡ child.n_uv_handles)
Closes-IsReleased first (stop child) released = (released, omega arith)
Closes-IsReleased first (more one rest) released =
    let (mid, less) = one_less first one released in
    let (last, counted) = Closes-IsReleased first rest mid in (last, omega (arith, less, counted))

-- Where a child that yc_child_new returned has exited and none of its pipes is open any more,
-- and libuv then calls any close callbacks, in any order: they and the handles still left are as
-- many as the handles were; done is emitted exactly when the callbacks are that many; and until
-- then another close callback is due.
pub n_uv_handles-done :
    {first child after : Child} {n : ℕ}
    → IsFresh first
    → Reaches first child
    → child.process_exited ≡ true
    → total is_open child.fds ≡ 0
    → Closes n child after
    → (n + after.n_uv_handles ≡ child.n_uv_handles)
      × (after.done_emitted ≡ (n == child.n_uv_handles))
      × ((after.done_emitted ≡ true) ⊎ ((next : Child) × ClosesOne after next))
n_uv_handles-done {first} {child} {after} {n} fresh reached ended shut closes =
    let released : IsReleased first child = record {
      ended = ended;
      shut = shut;
      well_formed = Reaches-WellFormed fresh reached;
    } in
    let (last, counted) = Closes-IsReleased first closes released in
    let emitted = last.well_formed.emitted in
    (
      counted,
      ground (arith, emitted, counted),
      elim (Bool-cases after.done_emitted) [
        | inl finished ↦ inl finished
        | inr waiting ↦ inr (handle_left first after last (ground (arith, emitted)))
      ],
    )
