-- ===== src/Child/Ledgers.antt =====
-- What the creation of a child opens and closes.
use yapara_c.Prelude.{
  ℕ, ◌+◌, Bool, false, not, ◌&&◌, List, [], ◌∷◌, ◌++◌, Option, none, some, ◌≡◌, refl, arith, ◌==◌,
  if◌then◌else◌, Bool-cases, inl, inr,
}
use yapara_c.Shell.Types.{
  Bytes, FdMode, mode_null, mode_pipe, mode_inherit, mode_file, mode_dup, FdInfo,
}
use yapara_c.Child.Defs.{Fd}
use yapara_c.Child.Measures.{held, one_if, occurrences}
use yapara_c.Child.FdInit.{
  Os, Ledger, close_fd, set_nonblock_cloexec, finish_pair, use_pair, open_pipe_pair, InitResult,
  failed, ready, blank_fd, direction, opened_fd, open_file, piped_fd, init_mode, init_directed,
  child_fd_init,
}

pub occurrences_of_append :
    (d : ℕ) (xs ys : List ℕ) → occurrences d (xs ++ ys) ≡ occurrences d xs + occurrences d ys
occurrences_of_append d [] ys = omega arith
occurrences_of_append d (x ∷ xs) ys = omega (arith, occurrences_of_append d xs ys)

-- Of `d`, so many more are open after than before.
abbrev pub Gains : (d n : ℕ) → (before after : Ledger) → Type 0
Gains d n before after =
    occurrences d after.opened + occurrences d before.closed
    ≡ occurrences d after.closed + occurrences d before.opened + n

abbrev pub one_of : ℕ → ℕ → ℕ
one_of d fd = if fd == d then 1 else 0

-- What the results of the functions hold.
abbrev pub pair_held : ℕ → Option (ℕ × ℕ) → ℕ
pair_held d none = 0
pair_held d (some (ours, theirs)) = one_of d ours + one_of d theirs

abbrev pub init_held : ℕ → InitResult → ℕ
init_held d (failed error) = 0
init_held d (ready cfd stdio dup_fd) = held d cfd + one_if d dup_fd

abbrev pub dups_held : ℕ → List (Option ℕ) → ℕ
dups_held d [] = 0
dups_held d (dup_fd ∷ dup_fds) = one_if d dup_fd + dups_held d dup_fds

finish_pair-Gains :
    (d : ℕ) (os : Os) (ours theirs : ℕ) (before ledger : Ledger)
    → Gains d (one_of d ours + one_of d theirs) before ledger
    → let (after, pair) = finish_pair os ours theirs ledger in
      Gains d (pair_held d pair) before after
unfolding finish_pair close_fd
finish_pair-Gains d os ours theirs before ledger h =
    elim (Bool-cases (set_nonblock_cloexec os ours)) [
      | inl good ↦ rw good h
      | inr bad ↦ rw bad (
          omega (
            arith,
            h,
            occurrences_of_append d ledger.closed (ours ∷ []),
            occurrences_of_append d (ledger.closed ++ ours ∷ []) (theirs ∷ []),
          ))
    ]

use_pair-Gains :
    (d : ℕ) (os : Os) (child_reads child_writes : Bool) (ledger : Ledger) (answer : Option (ℕ × ℕ))
    → let (after, pair) = use_pair os child_reads child_writes ledger answer in
      Gains d (pair_held d pair) ledger after
unfolding use_pair
use_pair-Gains d os child_reads child_writes ledger none = omega arith
use_pair-Gains d os child_reads child_writes ledger (some (fd0, fd1)) =
    let after : Ledger = record ledger {
      n_calls = ledger.n_calls + 1;
      opened = ledger.opened ++ fd0 ∷ fd1 ∷ [];
    } in
    let gained = occurrences_of_append d ledger.opened (fd0 ∷ fd1 ∷ []) in
    elim (Bool-cases (child_reads && not child_writes)) [
      | inl reads ↦ rw reads (finish_pair-Gains d os fd1 fd0 ledger after (omega (arith, gained)))
      | inr writes ↦ rw writes (finish_pair-Gains d os fd0 fd1 ledger after (omega (arith, gained)))
    ]

-- A descriptor with no poll yet.
abbrev pub IsRaw : Fd → Type 0
IsRaw cfd = (cfd.poll_inited ≡ false) × (cfd.poll_started ≡ false) × (cfd.closing_fd ≡ none)

-- The result fits the descriptor's number, and is not polled.
abbrev pub Fits : ℕ → InitResult → Type 0
Fits n (failed error) = Unit
Fits n (ready cfd stdio dup_fd) = (cfd.child_fd ≡ n) × IsRaw cfd

abbrev pub IsInit : ℕ → Ledger → Ledger × InitResult → Type 0
IsInit n before (after, result) =
    ((d : ℕ) → Gains d (init_held d result) before after) × Fits n result

abbrev pub IsUnset : ℕ → Fd → Type 0
IsUnset n cfd = (cfd.child_fd ≡ n) × (cfd.pipe_fd ≡ none) × IsRaw cfd

unset_held : (d n : ℕ) (cfd : Fd) → IsUnset n cfd → held d cfd ≡ 0
unset_held d n cfd (number, unpiped, (a, b, unclosed)) = rw (unpiped, unclosed) refl

opened_fd-IsInit :
    (n : ℕ) (cfd : Fd) (ledger : Ledger) (answer : Option ℕ)
    → IsUnset n cfd
    → IsInit n ledger (opened_fd cfd ledger answer)
unfolding opened_fd
opened_fd-IsInit n cfd ledger none unset = (λ d. omega arith, tt)
opened_fd-IsInit n cfd ledger (some fd) (number, unpiped, raw) = (
  λ d. omega (
    arith,
    unset_held d n cfd (number, unpiped, raw),
    occurrences_of_append d ledger.opened (fd ∷ []),
  ),
  (number, raw),
)

open_file-IsInit :
    (n : ℕ) (os : Os) (info : FdInfo) (cfd : Fd) (ledger : Ledger) (filename : Option Bytes)
    → IsUnset n cfd
    → IsInit n ledger (open_file os info cfd ledger filename)
unfolding open_file
open_file-IsInit n os info cfd ledger none unset = (λ d. omega arith, tt)
open_file-IsInit n os info cfd ledger (some filename) unset = opened_fd-IsInit n cfd ledger _ unset

piped_fd-IsInit :
    (n : ℕ) (cfd : Fd) (before : Ledger) (pair : Ledger × Option (ℕ × ℕ))
    → IsUnset n cfd
    → ((d : ℕ) → let (after, ends) = pair in Gains d (pair_held d ends) before after)
    → IsInit n before (piped_fd cfd pair)
unfolding piped_fd
piped_fd-IsInit n cfd before (after, none) unset h = (h, tt)
piped_fd-IsInit n cfd before (after, some (ours, theirs))
      (number, unpiped, (inited, started, unclosed)) h =
    (
      λ d.
          let nothing : one_if d cfd.closing_fd ≡ 0 = rw unclosed refl in
          omega (arith, h d, nothing),
      (number, (inited, started, unclosed)),
    )

init_mode-IsInit :
    (n : ℕ) (os : Os) (info : FdInfo) (cfd : Fd) (ledger : Ledger) (mode : FdMode)
    → IsUnset n cfd
    → IsInit n ledger (init_mode os info cfd ledger mode)
unfolding init_mode open_pipe_pair
init_mode-IsInit n os info cfd ledger mode_dup (number, unpiped, raw) =
    (λ d. omega (arith, unset_held d n cfd (number, unpiped, raw)), (number, raw))
init_mode-IsInit n os info cfd ledger mode_inherit (number, unpiped, raw) =
    (λ d. omega (arith, unset_held d n cfd (number, unpiped, raw)), (number, raw))
init_mode-IsInit n os info cfd ledger mode_null unset = opened_fd-IsInit n cfd ledger _ unset
init_mode-IsInit n os info cfd ledger mode_file unset =
    open_file-IsInit n os info cfd ledger info.filename unset
init_mode-IsInit n os info cfd ledger mode_pipe unset =
    piped_fd-IsInit n cfd ledger _ unset (λ d. use_pair-Gains d os cfd.is_in cfd.is_out ledger _)

pub child_fd_init-IsInit :
    (n : ℕ) (os : Os) (info : FdInfo) (ledger : Ledger)
    → IsInit n ledger (child_fd_init os n info ledger)
unfolding child_fd_init init_directed blank_fd
child_fd_init-IsInit n os info ledger = by_direction (direction n info)
  where
    by_direction : (o : Option (Bool × Bool)) → IsInit n ledger (init_directed os n info ledger o)
    by_direction none = (λ d. omega arith, tt)
    by_direction (some (is_in, is_out)) =
        let cfd : Fd = record (blank_fd n) {
          mode = info.mode;
          dup_fd = info.dup_fd;
          is_in = is_in;
          is_out = is_out;
        } in
        init_mode-IsInit n os info cfd ledger info.mode (refl, refl, (refl, refl, refl))
