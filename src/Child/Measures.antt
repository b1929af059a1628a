-- ===== src/Child/Measures.antt =====
-- What the descriptors of a child hold, added up, and the effect of a write on it.
use yapara_c.Prelude.{
  ℕ, zero, suc, ◌+◌, ◌≤◌, ◌<◌, true, false, not, ◌&&◌, ◌||◌, List, [], ◌∷◌, ◌++◌, Option, none,
  some, ◌≡◌, refl, ap, sym, ◌∙◌, subst, arith, ltb, ◌==◌, if◌then◌else◌, length, get_elem?, set,
  drop, Bool-cases, inl, inr,
}
use yapara_c.Child.Defs.{is_some, Fd, Call, done, io, closed, get_fd, at_index, search_fd}

abbrev pub total : (Fd → ℕ) → List Fd → ℕ
total f [] = 0
total f (cfd ∷ fds) = f cfd + total f fds

pub total-set :
    (f : Fd → ℕ) (fds : List Fd) (i : ℕ) (cfd changed : Fd)
    → get_elem? fds i ≡ some cfd
    → total f (set fds i changed) + f cfd ≡ total f fds + f changed
total-set f [] i cfd changed h = absurd (ground arith)
total-set f (x ∷ fds) zero cfd changed h = let same : x ≡ cfd = cc in rw same (omega arith)
total-set f (x ∷ fds) (suc i) cfd changed h = omega (arith, total-set f fds i cfd changed h)

-- One live handle of libuv: a poll that is open, or one that is being closed.
abbrev pub handles : Fd → ℕ
handles cfd = if cfd.poll_inited || is_some cfd.closing_fd then 1 else 0

abbrev pub one_if : ℕ → Option ℕ → ℕ
one_if d none = 0
one_if d (some fd) = if fd == d then 1 else 0

-- How often a descriptor of ours is the pipe of an fd, or on its way to close().
abbrev pub held : ℕ → Fd → ℕ
held d cfd = one_if d cfd.pipe_fd + one_if d cfd.closing_fd

abbrev pub is_open : Fd → ℕ
is_open cfd = if is_some cfd.pipe_fd then 1 else 0

pub total-handles : (fds : List Fd) → total handles fds ≤ length fds
total-handles [] = omega arith
total-handles (cfd ∷ fds) = ground (arith, total-handles fds)

abbrev pub occurrences : ℕ → List ℕ → ℕ
occurrences d [] = 0
occurrences d (fd ∷ fds) = (if fd == d then 1 else 0) + occurrences d fds

pub occurrences-append :
    (d fd : ℕ) (fds : List ℕ)
    → occurrences d (fds ++ fd ∷ []) ≡ occurrences d fds + (if fd == d then 1 else 0)
occurrences-append d fd [] = omega arith
occurrences-append d fd (x ∷ fds) = omega (arith, occurrences-append d fd fds)

abbrev pub is_done : Call → ℕ
is_done (io child_fd pipe_fd revents) = 0
is_done (closed child_fd pipe_fd) = 0
is_done done = 1

-- How often done() was called.
abbrev pub times_done : List Call → ℕ
times_done [] = 0
times_done (call ∷ calls) = is_done call + times_done calls

pub times_done-append :
    (call : Call) (calls : List Call)
    → times_done (calls ++ call ∷ []) ≡ times_done calls + is_done call
times_done-append call [] = omega arith
times_done-append call (x ∷ calls) = omega (arith, times_done-append call calls)

-- A poll is open exactly where there is a pipe, it is started only while open, and no pipe comes
-- with a descriptor that is still being closed.
abbrev pub IsSound : Fd → Type 0
IsSound cfd =
    (cfd.poll_inited ≡ is_some cfd.pipe_fd)
    × ((cfd.poll_started && not cfd.poll_inited) ≡ false)
    × ((is_some cfd.pipe_fd && is_some cfd.closing_fd) ≡ false)

abbrev pub AreSound : List Fd → Type 0
AreSound [] = Unit
AreSound (cfd ∷ fds) = IsSound cfd × AreSound fds

pub get_elem?-IsSound :
    (fds : List Fd) (i : ℕ) (cfd : Fd) → get_elem? fds i ≡ some cfd → AreSound fds → IsSound cfd
get_elem?-IsSound [] i cfd h all = absurd (ground arith)
get_elem?-IsSound (x ∷ fds) zero cfd h (ok, all) = subst IsSound {x = x} {y = cfd} (cc) ok
get_elem?-IsSound (x ∷ fds) (suc i) cfd h (ok, all) = get_elem?-IsSound fds i cfd h all

pub set-AreSound :
    (fds : List Fd) (i : ℕ) (cfd : Fd) → IsSound cfd → AreSound fds → AreSound (set fds i cfd)
set-AreSound [] i cfd ok all = tt
set-AreSound (x ∷ fds) zero cfd ok (before, all) = (ok, all)
set-AreSound (x ∷ fds) (suc i) cfd ok (before, all) = (before, set-AreSound fds i cfd ok all)

pub search_fd-get_elem? :
    (child_fd n i : ℕ) (fds : List Fd) (cfd : Fd)
    → search_fd child_fd n fds ≡ some (i, cfd)
    → (k : ℕ) × ((i ≡ n + k) × (get_elem? fds k ≡ some cfd))
unfolding search_fd
search_fd-get_elem? child_fd n i [] cfd h = absurd (ground arith)
search_fd-get_elem? child_fd n i (x ∷ fds) cfd h = elim (Bool-cases (x.child_fd == child_fd)) [
  | inl same ↦
      let found : some (n, x) ≡ some (i, cfd) = rw same at h in (0, (ground arith, ground arith))
  | inr other ↦
      let found : search_fd child_fd (suc n) fds ≡ some (i, cfd) = rw other at h in
      let (k, (at, there)) = search_fd-get_elem? child_fd (suc n) i fds cfd found in
      (suc k, (omega arith, there))
]

pub get_elem?-drop : (n k : ℕ) (fds : List Fd) → get_elem? (drop n fds) k ≡ get_elem? fds (n + k)
get_elem?-drop zero k fds = ap (get_elem? fds) (omega arith)
get_elem?-drop (suc n) k [] = refl
get_elem?-drop (suc n) k (x ∷ fds) =
    let later : suc n + k ≡ suc (n + k) = omega arith in rw later (get_elem?-drop n k fds)

pub at_index-get_elem? :
    (n i : ℕ) (o : Option Fd) (cfd : Fd) → at_index n o ≡ some (i, cfd) → (n ≡ i) × (o ≡ some cfd)
unfolding at_index
at_index-get_elem? n i none cfd h = absurd (ground arith)
at_index-get_elem? n i (some x) cfd h = (ground arith, ground arith)

pub get_fd-get_elem? :
    (child_fd i : ℕ) (fds : List Fd) (cfd : Fd)
    → get_fd child_fd fds ≡ some (i, cfd)
    → get_elem? fds i ≡ some cfd
unfolding get_fd
get_fd-get_elem? child_fd i fds cfd h = elim (Bool-cases (ltb child_fd 3)) [
  | inl low ↦
      let found : at_index child_fd (get_elem? fds child_fd) ≡ some (i, cfd) = rw low at h in
      let (same, there) = at_index-get_elem? child_fd i (get_elem? fds child_fd) cfd found in
      rw (sym same) there
  | inr high ↦
      let found : search_fd child_fd 3 (drop 3 fds) ≡ some (i, cfd) = rw high at h in
      let (k, (at, there)) = search_fd-get_elem? child_fd 3 i (drop 3 fds) cfd found in
      ap (get_elem? fds) at ∙ sym (get_elem?-drop 3 k fds) ∙ there
]

pub total-get_elem? :
    (f : Fd → ℕ) (fds : List Fd) (i : ℕ) (cfd : Fd)
    → get_elem? fds i ≡ some cfd
    → f cfd ≤ total f fds
total-get_elem? f [] i cfd h = absurd (ground arith)
total-get_elem? f (x ∷ fds) zero cfd h = let same : x ≡ cfd = cc in rw same (omega arith)
total-get_elem? f (x ∷ fds) (suc i) cfd h = omega (arith, total-get_elem? f fds i cfd h)

-- Where no pipe is open and a handle is left, some poll is being closed.
pub closing_left :
    (fds : List Fd)
    → AreSound fds
    → total is_open fds ≡ 0
    → 0 < total handles fds
    → (i : ℕ) × ((cfd : Fd) × ((get_elem? fds i ≡ some cfd) × (is_some cfd.closing_fd ≡ true)))
closing_left [] sound shut left = absurd (omega arith)
closing_left (cfd ∷ fds) ((inited, started, apart), sound) shut left =
    elim (Bool-cases (is_some cfd.closing_fd)) [
      | inl closing ↦ (0, (cfd, (refl, closing)))
      | inr gone ↦
          let shut_here : is_some cfd.pipe_fd ≡ false = ground arith in
          let none_here : handles cfd ≡ 0 = ground arith in
          let (i, (found, (at, closing))) = closing_left fds sound (omega arith) (omega arith) in
          (suc i, (found, (at, closing)))
    ]
