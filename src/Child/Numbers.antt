-- ===== src/Child/Numbers.antt =====
-- The descriptors of a child by their numbers, where one of them is changed.
use yapara_c.Prelude.{
  ℕ, zero, suc, ◌+◌, ◌<◌, true, false, List, [], ◌∷◌, Option, none, some, ◌≡◌, refl, ap, sym, ◌∙◌,
  arith, ltb, ◌==◌, get_elem?, set, drop, Bool-cases, inl, inr, ◌-◌,
}
use yapara_c.Child.Defs.{Fd, at_index, search_fd, get_fd}
use yapara_c.Child.Measures.{search_fd-get_elem?, at_index-get_elem?, get_elem?-drop}
use yapara_c.Child.Setups.{numbers}

-- The pipe of the descriptor that is found.
abbrev pub pipe_in : Option (ℕ × Fd) → Option ℕ
pipe_in none = none
pipe_in (some (i, cfd)) = cfd.pipe_fd

pub numbers-set :
    (fds : List Fd) (i : ℕ) (cfd changed : Fd)
    → get_elem? fds i ≡ some cfd
    → changed.child_fd ≡ cfd.child_fd
    → numbers (set fds i changed) ≡ numbers fds
numbers-set [] i cfd changed at same = refl
numbers-set (x ∷ fds) zero cfd changed at same =
    let here : x ≡ cfd = cc in
    ap (λ n. n ∷ numbers fds) (same ∙ sym (ap (λ (f : Fd). f.child_fd) here))
numbers-set (x ∷ fds) (suc i) cfd changed at same =
    ap (◌∷◌ x.child_fd) (numbers-set fds i cfd changed at same)

-- A descriptor that was shut stays shut where another is shut, ...
search_fd-set :
    (m k i : ℕ) (fds : List Fd) (cfd changed : Fd)
    → get_elem? fds i ≡ some cfd
    → changed.child_fd ≡ cfd.child_fd
    → changed.pipe_fd ≡ none
    → pipe_in (search_fd m k fds) ≡ none
    → pipe_in (search_fd m k (set fds i changed)) ≡ none
unfolding search_fd
search_fd-set m k i [] cfd changed at same shut before = refl
search_fd-set m k zero (x ∷ fds) cfd changed at same shut before =
    let here : x ≡ cfd = cc in
    let number : changed.child_fd ≡ x.child_fd = same ∙ sym (ap (λ (f : Fd). f.child_fd) here) in
    elim (Bool-cases (x.child_fd == m)) [
      | inl found ↦
          let found_changed : (changed.child_fd == m) ≡ true = rw number found in
          rw found_changed shut
      | inr other ↦
          let other_changed : (changed.child_fd == m) ≡ false = rw number other in
          rw other_changed (rw other at before)
    ]
search_fd-set m k (suc i) (x ∷ fds) cfd changed at same shut before =
    elim (Bool-cases (x.child_fd == m)) [
      | inl found ↦ rw found (rw found at before)
      | inr other ↦
          rw other (search_fd-set m (suc k) i fds cfd changed at same shut (rw other at before))
    ]

-- ... and the one that is found is found as it is now.
search_fd-set_found :
    (m k i j : ℕ) (fds : List Fd) (cfd changed : Fd)
    → search_fd m k fds ≡ some (j, cfd)
    → j ≡ k + i
    → changed.child_fd ≡ cfd.child_fd
    → search_fd m k (set fds i changed) ≡ some (j, changed)
unfolding search_fd
search_fd-set_found m k i j [] cfd changed found place same = absurd (ground arith)
search_fd-set_found m k zero j (x ∷ fds) cfd changed found place same =
    elim (Bool-cases (x.child_fd == m)) [
      | inl this ↦
          let taken : some (k, x) ≡ some (j, cfd) = rw this at found in
          let here : x ≡ cfd = ground arith in
          let number : changed.child_fd ≡ x.child_fd =
            same ∙ sym (ap (λ (f : Fd). f.child_fd) here) in
          let this_changed : (changed.child_fd == m) ≡ true = rw number this in
          let at : k ≡ j = ground arith in rw this_changed (ap (λ (n : ℕ). some (n, changed)) at)
      | inr other ↦
          let later : search_fd m (suc k) fds ≡ some (j, cfd) = rw other at found in
          let (n, (beyond, at)) = search_fd-get_elem? m (suc k) j fds cfd later in
          absurd (omega arith)
    ]
search_fd-set_found m k (suc i) j (x ∷ fds) cfd changed found place same =
    elim (Bool-cases (x.child_fd == m)) [
      | inl this ↦
          let taken : some (k, x) ≡ some (j, cfd) = rw this at found in
          let here : k ≡ j = ground arith in absurd (omega arith)
      | inr other ↦
          let later : search_fd m (suc k) fds ≡ some (j, cfd) = rw other at found in
          rw other (search_fd-set_found m (suc k) i j fds cfd changed later (omega arith) same)
    ]

at_index-set :
    (n m i : ℕ) (fds : List Fd) (changed : Fd)
    → changed.pipe_fd ≡ none
    → pipe_in (at_index n (get_elem? fds m)) ≡ none
    → pipe_in (at_index n (get_elem? (set fds i changed) m)) ≡ none
unfolding at_index
at_index-set n m i [] changed shut before = refl
at_index-set n zero zero (x ∷ fds) changed shut before = shut
at_index-set n (suc m) zero (x ∷ fds) changed shut before = before
at_index-set n zero (suc i) (x ∷ fds) changed shut before = before
at_index-set n (suc m) (suc i) (x ∷ fds) changed shut before =
    at_index-set n m i fds changed shut before

at_index-set_found :
    (n i : ℕ) (fds : List Fd) (cfd changed : Fd)
    → get_elem? fds i ≡ some cfd
    → at_index n (get_elem? (set fds i changed) i) ≡ some (n, changed)
unfolding at_index
at_index-set_found n i [] cfd changed at = absurd (ground arith)
at_index-set_found n zero (x ∷ fds) cfd changed at = refl
at_index-set_found n (suc i) (x ∷ fds) cfd changed at = at_index-set_found n i fds cfd changed at

drop-set_of_lt :
    (n i : ℕ) (fds : List Fd) (changed : Fd) → i < n → drop n (set fds i changed) ≡ drop n fds
drop-set_of_lt zero i fds changed low = absurd (omega arith)
drop-set_of_lt (suc n) i [] changed low = refl
drop-set_of_lt (suc n) zero (x ∷ fds) changed low = refl
drop-set_of_lt (suc n) (suc i) (x ∷ fds) changed low = drop-set_of_lt n i fds changed (omega arith)

drop-set_of_le :
    (n k i : ℕ) (fds : List Fd) (changed : Fd)
    → i ≡ n + k
    → drop n (set fds i changed) ≡ set (drop n fds) k changed
drop-set_of_le zero k i fds changed place = ap (λ j. set fds j changed) (omega arith)
drop-set_of_le (suc n) k i [] changed place = refl
drop-set_of_le (suc n) k zero (x ∷ fds) changed place = absurd (omega arith)
drop-set_of_le (suc n) k (suc i) (x ∷ fds) changed place =
    drop-set_of_le n k i fds changed (omega arith)

-- The same of all descriptors.
pub get_fd-set :
    (m i : ℕ) (fds : List Fd) (cfd changed : Fd)
    → get_elem? fds i ≡ some cfd
    → changed.child_fd ≡ cfd.child_fd
    → changed.pipe_fd ≡ none
    → pipe_in (get_fd m fds) ≡ none
    → pipe_in (get_fd m (set fds i changed)) ≡ none
unfolding get_fd
get_fd-set m i fds cfd changed at same shut before = elim (Bool-cases (ltb m 3)) [
  | inl low ↦ rw low (at_index-set m m i fds changed shut (rw low at before))
  | inr high ↦
      let before_high : pipe_in (search_fd m 3 (drop 3 fds)) ≡ none = rw high at before in
      elim (Bool-cases (ltb i 3)) [
        | inl apart ↦ rw (high, drop-set_of_lt 3 i fds changed (ground arith)) before_high
        | inr there ↦
            let place : i ≡ 3 + (i - 3) = ground arith in
            let at_rest : get_elem? (drop 3 fds) (i - 3) ≡ some cfd =
              get_elem?-drop 3 (i - 3) fds ∙ ap (get_elem? fds) (sym place) ∙ at in
            rw (high, drop-set_of_le 3 (i - 3) i fds changed place)
              (search_fd-set m 3 (i - 3) (drop 3 fds) cfd changed at_rest same shut before_high)
      ]
]

pub get_fd-set_found :
    (m i : ℕ) (fds : List Fd) (cfd changed : Fd)
    → get_fd m fds ≡ some (i, cfd)
    → changed.child_fd ≡ cfd.child_fd
    → get_fd m (set fds i changed) ≡ some (i, changed)
unfolding get_fd
get_fd-set_found m i fds cfd changed found same = elim (Bool-cases (ltb m 3)) [
  | inl low ↦
      let found_low : at_index m (get_elem? fds m) ≡ some (i, cfd) = rw low at found in
      let (place, at) = at_index-get_elem? m i (get_elem? fds m) cfd found_low in
      rw (low, sym place) (at_index-set_found m m fds cfd changed at)
  | inr high ↦
      let found_high : search_fd m 3 (drop 3 fds) ≡ some (i, cfd) = rw high at found in
      let (k, (place, at)) = search_fd-get_elem? m 3 i (drop 3 fds) cfd found_high in
      rw (high, drop-set_of_le 3 k i fds changed place)
        (search_fd-set_found m 3 k i (drop 3 fds) cfd changed found_high place same)
]
