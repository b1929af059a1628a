-- ===== src/Child/Setups.antt =====
-- What the loops of `yc_child_new` open and close, and the descriptors that they leave.
use yapara_c.Prelude.{
  ℕ, zero, suc, ◌+◌, ◌^◌, ◌<◌, List, [], ◌∷◌, ◌++◌, Option, none, some, ◌≡◌, refl, ap, ◌∙◌, arith,
  length, replicate, set, Bool-cases, inl, inr,
}
use yapara_c.Shell.Types.{FdInfo}
use yapara_c.Child.Defs.{Fd, apply_watch}
use yapara_c.Child.Measures.{total, total-handles, held, handles, occurrences, AreSound}
use yapara_c.Child.FdInit.{
  Stdio, Os, Ledger, close_fd, close_opt, InitResult, failed, ready, blank_fd, child_fd_init,
}
use yapara_c.Child.Create.{
  Setup, blank_fds, stopped, and_rest, after_init, init_each, close_dups, poll_fd, poll_each,
}
use yapara_c.Child.Ledgers.{
  occurrences_of_append, Gains, dups_held, IsRaw, IsInit, child_fd_init-IsInit,
}

abbrev pub numbers : List Fd → List ℕ
numbers [] = []
numbers (cfd ∷ fds) = cfd.child_fd ∷ numbers fds

abbrev pub spec_numbers : List (ℕ × FdInfo) → List ℕ
spec_numbers [] = []
spec_numbers ((n, info) ∷ specs) = n ∷ spec_numbers specs

abbrev pub AreRaw : List Fd → Type 0
AreRaw [] = Unit
AreRaw (cfd ∷ fds) = IsRaw cfd × AreRaw fds

-- All that was opened and not closed is the pipe of a descriptor, or to be closed after the spawn.
pub record IsSetup (specs : List (ℕ × FdInfo)) (before : Ledger) (s : Setup) : Type 0 where
  pub gained : (d : ℕ) → Gains d (total (held d) s.fds + dups_held d s.dup_fds) before s.ledger
  pub numbered : numbers s.fds ≡ spec_numbers specs
  pub raw : AreRaw s.fds

blank_fds-held : (d : ℕ) (specs : List (ℕ × FdInfo)) → total (held d) (blank_fds specs) ≡ 0
unfolding blank_fds blank_fd
blank_fds-held d [] = refl
blank_fds-held d ((n, info) ∷ specs) = omega (arith, blank_fds-held d specs)

replicate-held : (d n : ℕ) → dups_held d (replicate n none) ≡ 0
replicate-held d zero = refl
replicate-held d (suc n) = omega (arith, replicate-held d n)

numbers-blank_fds : (specs : List (ℕ × FdInfo)) → numbers (blank_fds specs) ≡ spec_numbers specs
unfolding blank_fds blank_fd
numbers-blank_fds [] = refl
numbers-blank_fds ((n, info) ∷ specs) = ap (◌∷◌ n) (numbers-blank_fds specs)

blank_fds-AreRaw : (specs : List (ℕ × FdInfo)) → AreRaw (blank_fds specs)
unfolding blank_fds blank_fd
blank_fds-AreRaw [] = tt
blank_fds-AreRaw ((n, info) ∷ specs) = ((refl, refl, refl), blank_fds-AreRaw specs)

after_init-IsSetup :
    (n : ℕ) (info : FdInfo) (specs : List (ℕ × FdInfo)) (stdio : List Stdio) (before : Ledger)
    (rest : List Stdio → Ledger → Setup) (answer : Ledger × InitResult)
    → IsInit n before answer
    → ((entries : List Stdio) (mid : Ledger) → IsSetup specs mid (rest entries mid))
    → IsSetup ((n, info) ∷ specs) before (after_init rest n ((n, info) ∷ specs) stdio answer)
unfolding after_init stopped and_rest
after_init-IsSetup n info specs stdio before rest (ledger, failed error) (gained, fits) ok =
    record {
      gained = λ d. omega (
        arith,
        gained d,
        blank_fds-held d ((n, info) ∷ specs),
        replicate-held d (length ((n, info) ∷ specs)),
      );
      numbered = numbers-blank_fds ((n, info) ∷ specs);
      raw = blank_fds-AreRaw ((n, info) ∷ specs);
    }
after_init-IsSetup n info specs stdio before rest (ledger, ready cfd entry dup_fd)
      (gained, (number, raw)) ok =
    let later = ok (set stdio n entry) ledger in
    record {
      gained = λ d. omega (arith, gained d, later.gained d);
      numbered = rw number (ap (◌∷◌ n) later.numbered);
      raw = (raw, later.raw);
    }

pub init_each-IsSetup :
    (os : Os) (specs : List (ℕ × FdInfo)) (stdio : List Stdio) (before : Ledger)
    → IsSetup specs before (init_each os specs stdio before)
unfolding init_each
init_each-IsSetup os [] stdio before = record {
  gained = λ d. omega arith;
  numbered = refl;
  raw = tt;
}
init_each-IsSetup os ((n, info) ∷ specs) stdio before =
    after_init-IsSetup n info specs stdio before (init_each os specs)
      (child_fd_init os n info before) (child_fd_init-IsInit n os info before)
      (init_each-IsSetup os specs)

-- So many closings of `d` more, and nothing opened.
abbrev pub ClosesMore : (d n : ℕ) → (before after : Ledger) → Type 0
ClosesMore d n before after =
    (occurrences d after.closed ≡ occurrences d before.closed + n) × (after.opened ≡ before.opened)

pub close_dups-ClosesMore :
    (d : ℕ) (dup_fds : List (Option ℕ)) (ledger : Ledger)
    → ClosesMore d (dups_held d dup_fds) ledger (close_dups dup_fds ledger)
unfolding close_dups close_opt close_fd
close_dups-ClosesMore d [] ledger = (omega arith, refl)
close_dups-ClosesMore d (none ∷ dup_fds) ledger =
    let (rest, same) = close_dups-ClosesMore d dup_fds ledger in (omega (arith, rest), same)
close_dups-ClosesMore d (some fd ∷ dup_fds) ledger =
    let (rest, same) =
      close_dups-ClosesMore d dup_fds (record ledger { closed = ledger.closed ++ fd ∷ [] }) in
    (omega (arith, rest, occurrences_of_append d ledger.closed (fd ∷ [])), same)

-- What the loop of the polls leaves: where libuv takes no poll, the pipe is closed.
pub record IsPolled (fds : List Fd) (n : ℕ) (before : Ledger) (polled : List Fd) (m : ℕ)
    (after : Ledger) : Type 0 where
  pub sound : AreSound polled
  pub counted : m ≡ n + total handles polled
  pub as_many : length polled ≡ length fds
  pub opened : after.opened ≡ before.opened
  pub once :
      (d : ℕ)
      → occurrences d after.closed + total (held d) polled
        ≡ occurrences d before.closed + total (held d) fds

poll_fd-IsPolled :
    (os : Os) (cfd : Fd) (n : ℕ) (before : Ledger) (o : Option ℕ)
    → cfd.pipe_fd ≡ o
    → IsRaw cfd
    → n + 1 < 2 ^ 64
    → let (polled, m, after) = poll_fd os cfd n before o in
      IsPolled (cfd ∷ []) n before (polled ∷ []) m after
unfolding poll_fd apply_watch close_fd
poll_fd-IsPolled os cfd n before none piped (inited, started, unclosed) small = record {
  sound = ((ground arith, ground arith, ground arith), tt);
  counted = ground arith;
  as_many = refl;
  opened = refl;
  once = λ d. refl;
}
poll_fd-IsPolled os cfd n before (some pipe_fd) piped (inited, started, unclosed) small =
    elim (Bool-cases (os.poll_init pipe_fd)) [
      | inl good ↦ rw good (record {
        sound = ((ground arith, ground arith, ground arith), tt);
        counted = ground arith;
        as_many = refl;
        opened = refl;
        once = λ d. ground arith;
      })
      | inr bad ↦ rw bad (record {
        sound = ((ground arith, ground arith, ground arith), tt);
        counted = ground arith;
        as_many = refl;
        opened = refl;
        once = λ d. ground (arith, occurrences_of_append d before.closed (pipe_fd ∷ []));
      })
    ]

pub poll_each-IsPolled :
    (os : Os) (fds : List Fd) (n : ℕ) (before : Ledger)
    → AreRaw fds
    → n + length fds < 2 ^ 64
    → let (polled, m, after) = poll_each os fds n before in IsPolled fds n before polled m after
unfolding poll_each
poll_each-IsPolled os [] n before raw small = record {
  sound = tt;
  counted = omega arith;
  as_many = refl;
  opened = refl;
  once = λ d. refl;
}
poll_each-IsPolled os (cfd ∷ fds) n before (raw, all) small =
    let (polled, m, mid) = poll_fd os cfd n before cfd.pipe_fd in
    let one = poll_fd-IsPolled os cfd n before cfd.pipe_fd refl raw (omega arith) in
    let (here, nil) = one.sound in
    let few = total-handles (polled ∷ []) in
    let rest = poll_each-IsPolled os fds m mid all (omega (arith, one.counted, few, small)) in
    record {
      sound = (here, rest.sound);
      counted = omega (arith, one.counted, rest.counted);
      as_many = ap suc rest.as_many;
      opened = rest.opened ∙ one.opened;
      once = λ d. omega (arith, one.once d, rest.once d);
    }
