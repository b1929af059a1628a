-- ===== src/Child/Settled.antt =====
-- How a child that is done leaves its container.
use yapara_c.Prelude.{
  ℕ, zero, suc, ◌+◌, ◌<◌, true, false, not, ◌||◌, List, [], ◌∷◌, some, ◌≡◌, refl, ap, sym, ◌∙◌,
  subst, arith, leb, ◌==◌, if◌then◌else◌, length, length-set, get_elem?, set, Bool-cases, inl, inr,
  ◌⊎◌,
}
use yapara_c.Child.Defs.{Child}
use yapara_c.Child.Container.{Container, signal_ready, remove_child, finish_child}
use yapara_c.Child.Slots.{AreIndexed, tally}
use yapara_c.Child.Crowd.{
  tally-set, AreIndexed-set, get_elem?-AreIndexed, IsWithout, remove_child-IsWithout, count_done,
  count_pid, IsConsistent, IsRetained, retain_done_child-IsRetained, signal_ready-IsConsistent,
}

-- The children of these lists that have this process id.
abbrev pub known : ℕ → Container → ℕ
known pid c =
    tally (count_pid pid) c.children
    + (tally (count_pid pid) c.done_children + tally (count_pid pid) c.freed)

signal_ready-known : (pid : ℕ) (c : Container) → known pid (signal_ready c) ≡ known pid c
unfolding signal_ready
signal_ready-known pid c =
    elim (Bool-cases
      (not c.has_ready || (c.ready_idle_started || leb c.max_children (length c.children)))) [
        | inl stays ↦ rw stays refl
        | inr starts ↦ rw starts refl
      ]

signal_ready-room :
    (c : Container)
    → length c.children < c.max_children
    → length (signal_ready c).children < (signal_ready c).max_children
unfolding signal_ready
signal_ready-room c room =
    elim (Bool-cases
      (not c.has_ready || (c.ready_idle_started || leb c.max_children (length c.children)))) [
        | inl stays ↦ rw stays room
        | inr starts ↦ rw starts room
      ]

-- Where there is room, the idle handle is started, or there is no callback to call.
signal_ready-woken :
    (c : Container)
    → length c.children < c.max_children
    → ((signal_ready c).ready_idle_started ≡ true) ⊎ (c.has_ready ≡ false)
unfolding signal_ready
signal_ready-woken c room = elim (Bool-cases c.has_ready) [
  | inl called ↦ inl (ground arith)
  | inr silent ↦ inr silent
]

-- The child that is done leaves the array; it is retained or freed, and the application is asked
-- for another.
pub record IsSettled (c after : Container) : Type 0 where
  pub consistent : IsConsistent after
  pub accounted : (pid : ℕ) → known pid after ≡ known pid c
  pub room : length after.children < after.max_children

get_elem?-set_same :
    (i : ℕ) (children : List Child) (child after : Child)
    → get_elem? children i ≡ some child
    → get_elem? (set children i after) i ≡ some after
get_elem?-set_same i [] child after at = absurd (ground arith)
get_elem?-set_same zero (x ∷ children) child after at = refl
get_elem?-set_same (suc i) (x ∷ children) child after at =
    get_elem?-set_same i children child after at

-- The same, from what the two steps before the signal do.
signalled-IsSettled :
    (i : ℕ) (child after : Child) (c mid last : Container)
    → get_elem? c.children i ≡ some child
    → after.pid ≡ child.pid
    → after.done_emitted ≡ true
    → IsConsistent c
    → IsWithout after (set c.children i after) mid.children
    → mid.max_children ≡ c.max_children
    → mid.has_ready ≡ c.has_ready
    → (mid.done_children ≡ c.done_children) × (mid.freed ≡ c.freed)
    → IsRetained after mid last
    → IsSettled c (signal_ready last)
      × (((signal_ready last).ready_idle_started ≡ true) ⊎ (c.has_ready ≡ false))
signalled-IsSettled i child after c mid last at pids emitted ok without max ready
      (same_done, same_freed) kept =
    let size = length-set c.children i after in
    let fewer : length c.children ≡ suc (length last.children) =
      sym size ∙ without.shorter ∙ ap (λ l. suc (length l)) (sym kept.children) in
    let same_max : last.max_children ≡ c.max_children = kept.max_children ∙ max in
    let none_done : tally count_done mid.children ≡ 0 = ground (
      arith,
      without.accounted count_done (λ x k. refl),
      tally-set count_done i c.children child after at,
      ok.live,
    ) in
    let consistent : IsConsistent last = record {
      room = omega (arith, same_max, ok.room);
      bounded = omega (arith, same_max, ok.bounded, fewer);
      indexed = subst (AreIndexed 0) (sym kept.children) without.indexed;
      live = ap (tally count_done) kept.children ∙ none_done;
      retained = kept.retained;
    } in
    (
      record {
        consistent = signal_ready-IsConsistent last consistent;
        accounted = λ pid.
            let same_pid : count_pid pid after ≡ count_pid pid child =
              ap (λ (k : ℕ). if k == pid then 1 else 0) pids in
            signal_ready-known pid last
            ∙ omega (
              arith,
              same_pid,
              kept.accounted (count_pid pid),
              ap (tally (count_pid pid)) kept.children,
              without.accounted (count_pid pid) (λ x k. refl),
              tally-set (count_pid pid) i c.children child after at,
              ap (tally (count_pid pid)) same_done,
              ap (tally (count_pid pid)) same_freed,
            );
        room = signal_ready-room last (omega (arith, same_max, ok.bounded, fewer));
      },
      elim (signal_ready-woken last (omega (arith, same_max, ok.bounded, fewer))) [
        | inl woken ↦ inl woken
        | inr silent ↦ inr (sym (kept.has_ready ∙ ready) ∙ silent)
      ],
    )

pub finish_child-IsSettled :
    (i : ℕ) (child after : Child) (c : Container)
    → get_elem? c.children i ≡ some child
    → after.container_index ≡ child.container_index
    → after.pid ≡ child.pid
    → after.done_emitted ≡ true
    → IsConsistent c
    → IsSettled c (finish_child after (record c { children = set c.children i after }))
      × (((finish_child after (record c { children = set c.children i after })).ready_idle_started
            ≡ true)
          ⊎ (c.has_ready ≡ false))
finish_child-IsSettled i child after c at index pids emitted ok =
    let here = get_elem?-AreIndexed 0 i c.children child at ok.indexed in
    let place : after.container_index ≡ i = omega (arith, index, here) in
    let stored = set c.children i after in
    let there : get_elem? stored after.container_index ≡ some after =
      ap (get_elem? stored) place ∙ get_elem?-set_same i c.children child after at in
    let without =
      remove_child-IsWithout after.container_index after stored there
        (AreIndexed-set 0 i c.children after (omega arith) ok.indexed) in
    let mid : Container = record c { children = remove_child after.container_index stored } in
    unfold finish_child in
    signalled-IsSettled i child after c mid _ at pids emitted ok without refl refl (refl, refl)
      (retain_done_child-IsRetained after mid ok.retained)
