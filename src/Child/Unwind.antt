-- ===== src/Child/Unwind.antt =====
-- The way out of `yc_child_new` where it fails: every pipe is closed.
use yapara_c.Prelude.{
  ℕ, zero, suc, ◌+◌, Bool, false, ◌||◌, List, [], ◌∷◌, ◌++◌, Option, none, some, ◌≡◌, refl, ap, ◌∙◌,
  subst, arith, ltb, ◌==◌, if◌then◌else◌, get_elem?, set, Bool-cases, Option-cases, inl, inr,
}
use yapara_c.Shell.Types.{OtherFdInfo}
use yapara_c.Child.Defs.{
  Fd, Child, get_fd, is_finished, check_done, shut_fd, let_go, close_pipe, close_found, fd_close,
  close_each,
}
use yapara_c.Child.Measures.{
  total, total-set, held, occurrences, occurrences-append, get_fd-get_elem?,
}
use yapara_c.Child.Create.{is_given, check_others}
use yapara_c.Child.Ledgers.{IsRaw}
use yapara_c.Child.Setups.{numbers, AreRaw}
use yapara_c.Child.Numbers.{pipe_in, numbers-set, get_fd-set, get_fd-set_found}

get_elem?-IsRaw :
    (fds : List Fd) (i : ℕ) (cfd : Fd) → get_elem? fds i ≡ some cfd → AreRaw fds → IsRaw cfd
get_elem?-IsRaw [] i cfd h all = absurd (ground arith)
get_elem?-IsRaw (x ∷ fds) zero cfd h (raw, all) = subst IsRaw {x = x} {y = cfd} (cc) raw
get_elem?-IsRaw (x ∷ fds) (suc i) cfd h (raw, all) = get_elem?-IsRaw fds i cfd h all

set-AreRaw : (fds : List Fd) (i : ℕ) (cfd : Fd) → IsRaw cfd → AreRaw fds → AreRaw (set fds i cfd)
set-AreRaw [] i cfd raw all = tt
set-AreRaw (x ∷ fds) zero cfd raw (before, all) = (raw, all)
set-AreRaw (x ∷ fds) (suc i) cfd raw (before, all) = (before, set-AreRaw fds i cfd raw all)

-- A child that was not spawned: none of its pipes has a poll.
pub record IsUnborn (child : Child) : Type 0 where
  pub raw : AreRaw child.fds
  pub running : child.process_exited ≡ false

-- What closing leaves of it: the numbers, each descriptor held or closed as before, and the pipes
-- that were closed before.
pub record IsClosing (before after : Child) : Type 0 where
  pub unborn : IsUnborn after
  pub numbered : numbers after.fds ≡ numbers before.fds
  pub once :
      (d : ℕ)
      → occurrences d after.os_closed + total (held d) after.fds
        ≡ occurrences d before.os_closed + total (held d) before.fds

shut_fd-IsRaw :
    (pipe_fd : ℕ) (cfd : Fd)
    → cfd.pipe_fd ≡ some pipe_fd
    → IsRaw cfd
    → IsRaw (shut_fd pipe_fd cfd)
      × ((d : ℕ) → held d cfd ≡ held d (shut_fd pipe_fd cfd) + (if pipe_fd == d then 1 else 0))
unfolding shut_fd
shut_fd-IsRaw pipe_fd cfd piped (inited, started, unclosed) =
    ((refl, ground arith, ground arith), λ d. ground arith)

unfinished_lem : (child : Child) → child.process_exited ≡ false → check_done child ≡ child
unfolding check_done is_finished
unfinished_lem child running = ground arith

-- yc_child_fd_close of such a child, where it finds an open pipe.
fd_close-let_go :
    (child_fd i pipe_fd : ℕ) (cfd : Fd) (child : Child)
    → get_fd child_fd child.fds ≡ some (i, cfd)
    → cfd.pipe_fd ≡ some pipe_fd
    → IsRaw cfd
    → child.process_exited ≡ false
    → fd_close child_fd child ≡ let_go child_fd pipe_fd i cfd child
unfolding fd_close close_found close_pipe shut_fd
fd_close-let_go child_fd i pipe_fd cfd child found piped (inited, started, unclosed) running =
    let still = unfinished_lem (let_go child_fd pipe_fd i cfd child) (unfold let_go in running) in
    rw found (ap (λ o. close_pipe child_fd i cfd o child) piped ∙ ground (arith, still))

let_go-IsClosing :
    (child_fd i pipe_fd : ℕ) (cfd : Fd) (child : Child)
    → get_elem? child.fds i ≡ some cfd
    → cfd.pipe_fd ≡ some pipe_fd
    → IsUnborn child
    → IsClosing child (let_go child_fd pipe_fd i cfd child)
unfolding let_go
let_go-IsClosing child_fd i pipe_fd cfd child at piped ok =
    let raw = get_elem?-IsRaw child.fds i cfd at ok.raw in
    let (inited, started, unclosed) = raw in
    let (still, less) = shut_fd-IsRaw pipe_fd cfd piped raw in
    let shut = shut_fd pipe_fd cfd in
    record {
      unborn = record { raw = set-AreRaw child.fds i shut still ok.raw; running = ok.running };
      numbered = numbers-set child.fds i cfd shut at (unfold shut_fd in refl);
      once = λ d.
          ap
            (λ (b : Bool).
              occurrences d (if b then child.os_closed else child.os_closed ++ pipe_fd ∷ [])
              + total (held d) (set child.fds i shut))
            inited
          ∙ omega (
            arith,
            less d,
            total-set (held d) child.fds i cfd shut at,
            occurrences-append d pipe_fd child.os_closed,
          );
    }

-- One call: it closes that pipe, and opens none.
pub record Shuts (child_fd : ℕ) (before after : Child) : Type 0 where
  pub closing : IsClosing before after
  pub shut : pipe_in (get_fd child_fd after.fds) ≡ none
  pub stays : (m : ℕ) → pipe_in (get_fd m before.fds) ≡ none → pipe_in (get_fd m after.fds) ≡ none

same-Shuts :
    (child_fd : ℕ) (child : Child)
    → IsUnborn child
    → pipe_in (get_fd child_fd child.fds) ≡ none
    → Shuts child_fd child child
same-Shuts child_fd child ok shut = record {
  closing = record { unborn = ok; numbered = refl; once = λ d. refl };
  shut = shut;
  stays = λ m h. h;
}

close_found-Shuts :
    (child_fd i : ℕ) (cfd : Fd) (child : Child) (o : Option ℕ)
    → get_fd child_fd child.fds ≡ some (i, cfd)
    → cfd.pipe_fd ≡ o
    → IsUnborn child
    → Shuts child_fd child (fd_close child_fd child)
close_found-Shuts child_fd i cfd child none found shut ok =
    let same : fd_close child_fd child ≡ child =
      unfold fd_close close_found close_pipe in
      rw found (ap (λ o. close_pipe child_fd i cfd o child) shut) in
    rw same (same-Shuts child_fd child ok (rw found shut))
close_found-Shuts child_fd i cfd child (some pipe_fd) found piped ok =
    let at = get_fd-get_elem? child_fd i child.fds cfd found in
    let raw = get_elem?-IsRaw child.fds i cfd at ok.raw in
    let shut = shut_fd pipe_fd cfd in
    let gone : fd_close child_fd child ≡ let_go child_fd pipe_fd i cfd child =
      fd_close-let_go child_fd i pipe_fd cfd child found piped raw ok.running in
    rw gone (record {
      closing = let_go-IsClosing child_fd i pipe_fd cfd child at piped ok;
      shut =
          unfold let_go shut_fd in
          ap pipe_in (get_fd-set_found child_fd i child.fds cfd shut found refl);
      stays = λ m. unfold let_go shut_fd in get_fd-set m i child.fds cfd shut at refl refl;
    })

fd_close-Shuts :
    (child_fd : ℕ) (child : Child) → IsUnborn child → Shuts child_fd child (fd_close child_fd child)
fd_close-Shuts child_fd child ok = elim (Option-cases (get_fd child_fd child.fds)) [
  | inl missing ↦
      let same : fd_close child_fd child ≡ child = unfold fd_close close_found in rw missing refl in
      rw same (same-Shuts child_fd child ok (rw missing refl))
  | inr ((i, cfd), found) ↦ close_found-Shuts child_fd i cfd child cfd.pipe_fd found refl ok
]

-- Of these numbers, none has an open pipe.
abbrev pub AreShut : List ℕ → List Fd → Type 0
AreShut [] fds = Unit
AreShut (n ∷ ns) fds = (pipe_in (get_fd n fds) ≡ none) × AreShut ns fds

IsClosing_trans : (a b c : Child) → IsClosing a b → IsClosing b c → IsClosing a c
IsClosing_trans a b c ab bc = record {
  unborn = bc.unborn;
  numbered = bc.numbered ∙ ab.numbered;
  once = λ d. bc.once d ∙ ab.once d;
}

-- All calls.
close_each-stays :
    (fds : List Fd) (child : Child) (m : ℕ)
    → IsUnborn child
    → pipe_in (get_fd m child.fds) ≡ none
    → pipe_in (get_fd m (close_each fds child).fds) ≡ none
unfolding close_each
close_each-stays [] child m ok shut = shut
close_each-stays (cfd ∷ fds) child m ok shut =
    let one = fd_close-Shuts cfd.child_fd child ok in
    close_each-stays fds (fd_close cfd.child_fd child) m one.closing.unborn (one.stays m shut)

pub close_each-AreShut :
    (fds : List Fd) (child : Child)
    → IsUnborn child
    → IsClosing child (close_each fds child) × AreShut (numbers fds) (close_each fds child).fds
unfolding close_each
close_each-AreShut [] child ok = (record { unborn = ok; numbered = refl; once = λ d. refl }, tt)
close_each-AreShut (cfd ∷ fds) child ok =
    let one = fd_close-Shuts cfd.child_fd child ok in
    let mid = fd_close cfd.child_fd child in
    let (rest, shut) = close_each-AreShut fds mid one.closing.unborn in
    (
      IsClosing_trans child mid _ one.closing rest,
      (close_each-stays fds mid cfd.child_fd one.closing.unborn one.shut, shut),
    )

-- Numbers from 3 up, none of them given twice.
abbrev pub AreNew : List ℕ → List ℕ → Type 0
AreNew before [] = Unit
AreNew before (n ∷ ns) =
    (ltb n 3 ≡ false) × (is_given n before ≡ false) × AreNew (before ++ n ∷ []) ns

abbrev pub other_numbers : List OtherFdInfo → List ℕ
other_numbers [] = []
other_numbers (other ∷ others) = other.fd ∷ other_numbers others

pub check_others-AreNew :
    (before : List ℕ) (count found : ℕ) (others : List OtherFdInfo)
    → check_others before count others ≡ some found
    → AreNew before (other_numbers others)
unfolding check_others
check_others-AreNew before count found [] h = tt
check_others-AreNew before count found (other ∷ others) h =
    elim (Bool-cases (ltb other.fd 3 || is_given other.fd before)) [
      | inl refused ↦ let failed : none ≡ some found = rw refused at h in absurd (ground arith)
      | inr new ↦ (
        ground arith,
        ground arith,
        check_others-AreNew (before ++ other.fd ∷ []) _ found others (rw new at h),
      )
    ]
