-- ===== src/Child/Creation.antt =====
-- What `yc_child_new` leaves: of the descriptors that it opens, none is lost.
use yapara_c.Prelude.{
  ℕ, suc, ◌+◌, ◌<◌, ◌^◌, true, List, [], ◌∷◌, ◌++◌, Option, none, some, ◌≡◌, refl, ap, sym, ◌∙◌,
  subst, arith, leb, ◌==◌, length, replicate, Bool-cases, inl, inr,
}
use yapara_c.Shell.Types.{FdInfo, OtherFdInfo, CreateInfo}
use yapara_c.Child.Defs.{Fd, Callbacks, Child, close_each, close_all_fds}
use yapara_c.Child.Measures.{total, held, occurrences}
use yapara_c.Child.Events.{IsFresh, Reaches}
use yapara_c.Child.Lifecycle.{done-closed}
use yapara_c.Child.FdInit.{CreateError, Stdio, ignore, Os, Ledger, no_calls}
use yapara_c.Child.Create.{
  number_from, number_others, specs, Setup, init_each, resolve_dup_fds, check_others, close_dups,
  unborn, no_callbacks, unwind, poll_each, Created, refused, created, spawn_ready, resolved, set_up,
  checked, child_new,
}
use yapara_c.Child.Setups.{
  numbers, spec_numbers, IsSetup, init_each-IsSetup, close_dups-ClosesMore, poll_each-IsPolled,
}
use yapara_c.Child.Unwind.{AreShut, AreNew, other_numbers, check_others-AreNew, close_each-AreShut}
use yapara_c.Child.Distinct.{all_shut, none_held}

-- Of the descriptors that were opened, each is closed; or a pipe of the child, which is fresh.
abbrev pub IsBalanced : Ledger × Created → Type 0
IsBalanced (ledger, refused error) =
    (d : ℕ) → occurrences d ledger.opened ≡ occurrences d ledger.closed
IsBalanced (ledger, created child) =
    IsFresh child
    × ((d : ℕ)
        → occurrences d ledger.opened ≡ occurrences d ledger.closed + total (held d) child.fds)

others_numbers :
    (others : List OtherFdInfo) → spec_numbers (number_others others) ≡ other_numbers others
unfolding number_others
others_numbers [] = refl
others_numbers (other ∷ others) = ap (◌∷◌ other.fd) (others_numbers others)

specs_numbers :
    (infos : List FdInfo) (others : List OtherFdInfo)
    → length infos ≡ 3
    → spec_numbers (number_from 0 infos ++ number_others others) ≡ 0 ∷ 1 ∷ 2 ∷ other_numbers others
unfolding number_from
specs_numbers [] others h = absurd (omega arith)
specs_numbers (a ∷ []) others h = absurd (omega arith)
specs_numbers (a ∷ b ∷ []) others h = absurd (omega arith)
specs_numbers (a ∷ b ∷ c ∷ d ∷ infos) others h = absurd (omega arith)
specs_numbers (a ∷ b ∷ c ∷ []) others h = ap (λ ns. 0 ∷ 1 ∷ 2 ∷ ns) (others_numbers others)

length-numbers : (fds : List Fd) → length (numbers fds) ≡ length fds
length-numbers [] = refl
length-numbers (cfd ∷ fds) = ap suc (length-numbers fds)

length-other_numbers : (others : List OtherFdInfo) → length (other_numbers others) ≡ length others
length-other_numbers [] = refl
length-other_numbers (other ∷ others) = ap suc (length-other_numbers others)

-- The way out closes all that was opened.
unwind_lem :
    (s : Setup) (ns : List ℕ) (list : List (ℕ × FdInfo))
    → IsSetup list no_calls s
    → spec_numbers list ≡ 0 ∷ 1 ∷ 2 ∷ ns
    → AreNew [] ns
    → (d : ℕ) → occurrences d (unwind s).opened ≡ occurrences d (unwind s).closed
unfolding unwind close_all_fds unborn
unwind_lem s ns list ok named new d =
    let freed = close_dups s.dup_fds s.ledger in
    let child = unborn s.fds no_callbacks 0 freed.closed in
    let (more, same) = close_dups-ClosesMore d s.dup_fds s.ledger in
    let (closing, shut) =
      close_each-AreShut s.fds child (record { raw = ok.raw; running = refl }) in
    let numbered : numbers s.fds ≡ 0 ∷ 1 ∷ 2 ∷ ns = ok.numbered ∙ named in
    let after = close_each s.fds child in
    let all_closed =
      all_shut after.fds ns (closing.numbered ∙ numbered) new
        (subst (λ l. AreShut l after.fds) (sym closing.numbered) shut) in
    let nothing = none_held d after.fds closing.unborn.raw all_closed in
    let opened : occurrences d freed.opened ≡ occurrences d s.ledger.opened =
      ap (occurrences d) same in
    omega (arith, ok.gained d, more, closing.once d, nothing, opened)

spawn_ready-IsBalanced :
    (os : Os) (callbacks : Callbacks) (n_children : ℕ) (s : Setup) (ns : List ℕ)
    (list : List (ℕ × FdInfo)) (answer : Option ℕ)
    → IsSetup list no_calls s
    → spec_numbers list ≡ 0 ∷ 1 ∷ 2 ∷ ns
    → AreNew [] ns
    → 3 + length ns < 2 ^ 32
    → IsBalanced (spawn_ready os callbacks n_children s answer)
unfolding spawn_ready
spawn_ready-IsBalanced os callbacks n_children s ns list none ok named new few =
    unwind_lem s ns list ok named new
spawn_ready-IsBalanced os callbacks n_children s ns list (some pid) ok named new few =
    let freed = close_dups s.dup_fds s.ledger in
    let (fds, n_uv_handles, ledger) = poll_each os s.fds 1 freed in
    let numbered : length s.fds ≡ 3 + length ns =
      sym (length-numbers s.fds) ∙ ap length (ok.numbered ∙ named) ∙ omega arith in
    let polled = poll_each-IsPolled os s.fds 1 freed ok.raw (omega arith) in
    (
      unfold unborn in
          record {
            few = omega (arith, polled.as_many);
            counted = polled.counted;
            not_exited = refl;
            not_done = refl;
            not_closed = refl;
            none_closed = refl;
            no_calls = refl;
            sound = polled.sound;
          },
      λ d.
          let (more, same) = close_dups-ClosesMore d s.dup_fds s.ledger in
          let opened : occurrences d ledger.opened ≡ occurrences d s.ledger.opened =
            ap (occurrences d) (polled.opened ∙ same) in
          unfold unborn in omega (arith, opened, ok.gained d, more, polled.once d),
    )

resolved-IsBalanced :
    (os : Os) (callbacks : Callbacks) (n_children : ℕ) (info : CreateInfo) (s : Setup) (ns : List ℕ)
    (list : List (ℕ × FdInfo)) (stdio : Option (List Stdio))
    → IsSetup list no_calls s
    → spec_numbers list ≡ 0 ∷ 1 ∷ 2 ∷ ns
    → AreNew [] ns
    → 3 + length ns < 2 ^ 32
    → IsBalanced (resolved os callbacks n_children info s stdio)
unfolding resolved
resolved-IsBalanced os callbacks n_children info s ns list none ok named new few =
    unwind_lem s ns list ok named new
resolved-IsBalanced os callbacks n_children info s ns list (some stdio) ok named new few =
    spawn_ready-IsBalanced os callbacks n_children s ns list (os.spawn info stdio) ok named new few

set_up-IsBalanced :
    (os : Os) (callbacks : Callbacks) (n_children : ℕ) (info : CreateInfo) (s : Setup) (ns : List ℕ)
    (list : List (ℕ × FdInfo)) (error : Option CreateError)
    → IsSetup list no_calls s
    → spec_numbers list ≡ 0 ∷ 1 ∷ 2 ∷ ns
    → AreNew [] ns
    → 3 + length ns < 2 ^ 32
    → IsBalanced (set_up os callbacks n_children info s error)
unfolding set_up
set_up-IsBalanced os callbacks n_children info s ns list none ok named new few =
    resolved-IsBalanced os callbacks n_children info s ns list (resolve_dup_fds s.fds s.stdio) ok
      named new few
set_up-IsBalanced os callbacks n_children info s ns list (some error) ok named new few =
    unwind_lem s ns list ok named new

checked-IsBalanced :
    (os : Os) (callbacks : Callbacks) (n_children : ℕ) (info : CreateInfo) (count : Option ℕ)
    → check_others [] 3 info.other_fd_infos ≡ count
    → length info.fd_infos ≡ 3
    → 3 + length info.other_fd_infos < 2 ^ 32
    → IsBalanced (checked os callbacks n_children info count)
unfolding checked specs
checked-IsBalanced os callbacks n_children info none found three few = λ d. refl
checked-IsBalanced os callbacks n_children info (some count) found three few =
    let list = specs info in
    let s = init_each os list (replicate count ignore) no_calls in
    set_up-IsBalanced os callbacks n_children info s (other_numbers info.other_fd_infos) list
      s.error (init_each-IsSetup os list (replicate count ignore) no_calls)
      (specs_numbers info.fd_infos info.other_fd_infos three)
      (check_others-AreNew [] 3 count info.other_fd_infos found)
      (omega (arith, length-other_numbers info.other_fd_infos))

-- Where there are the three standard descriptors (`fd_infos[3]`) and fewer than 2 ^ 32 in all,
-- whatever the system answers: where yc_child_new returns NULL, it has closed each descriptor that
-- it opened, as often; where it returns a child, what is not closed is the child's pipes, and the
-- child is fresh: it counts one handle for its process and one for each poll, and none of its
-- descriptors is polled unless it has a pipe.
pub child_new-IsBalanced :
    (os : Os) (callbacks : Callbacks) (n_children max_children : ℕ) (info : CreateInfo)
    → length info.fd_infos ≡ 3
    → 3 + length info.other_fd_infos < 2 ^ 32
    → IsBalanced (child_new os callbacks n_children max_children info)
unfolding child_new
child_new-IsBalanced os callbacks n_children max_children info three few =
    elim (Bool-cases (length info.argv == 0)) [
      | inl empty ↦ rw empty (λ d. refl)
      | inr words ↦ elim (Bool-cases (leb max_children n_children)) [
        | inl full ↦ rw (words, full) (λ d. refl)
        | inr room ↦
            rw (words, room) (checked-IsBalanced os callbacks n_children info _ refl three few)
      ]
    ]

-- Where there are the three standard descriptors (`fd_infos[3]`) and fewer than 2 ^ 32 in all: from
-- yc_child_new, which returned a child, to where done is emitted, whatever happens in between,
-- each descriptor that was opened for the child was closed, as often as it was opened.
pub child_new-closed :
    (os : Os) (callbacks : Callbacks) (n_children max_children : ℕ) (info : CreateInfo)
    (ledger : Ledger) (first child : Child)
    → length info.fd_infos ≡ 3
    → 3 + length info.other_fd_infos < 2 ^ 32
    → child_new os callbacks n_children max_children info ≡ (ledger, created first)
    → Reaches first child
    → child.done_emitted ≡ true
    → (d : ℕ)
    → occurrences d ledger.opened ≡ occurrences d ledger.closed + occurrences d child.os_closed
child_new-closed os callbacks n_children max_children info ledger first child three few made reached
      emitted d =
    let (fresh, opened) =
      subst IsBalanced made
        (child_new-IsBalanced os callbacks n_children max_children info three few) in
    let (at_most, all) = done-closed fresh reached in
    elim all [ inl waiting ↦ absurd (ground arith) | inr exact ↦ omega (arith, opened d, exact d) ]
