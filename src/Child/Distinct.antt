-- ===== src/Child/Distinct.antt =====
-- Where the descriptors' numbers differ, closing each number closes every pipe.
use yapara_c.Prelude.{
  ℕ, suc, true, false, ◌||◌, List, [], ◌∷◌, ◌++◌, Option, none, some, ◌≡◌, refl, sym, ◌∙◌, subst,
  arith, ◌==◌, Bool-cases, inl, inr,
}
use yapara_c.Child.Defs.{is_some, Fd, at_index, search_fd, get_fd}
use yapara_c.Child.Measures.{total, is_open, held, one_if}
use yapara_c.Child.Create.{is_given}
use yapara_c.Child.Setups.{numbers, AreRaw}
use yapara_c.Child.Numbers.{pipe_in}
use yapara_c.Child.Unwind.{AreShut, AreNew}

abbrev Avoids : ℕ → List ℕ → Type 0
Avoids x [] = Unit
Avoids x (n ∷ ns) = ((x == n) ≡ false) × Avoids x ns

abbrev Differ : List ℕ → Type 0
Differ [] = Unit
Differ (n ∷ ns) = Avoids n ns × Differ ns

is_given-append :
    (x n : ℕ) (before : List ℕ) → is_given x (before ++ n ∷ []) ≡ (is_given x before || (n == x))
unfolding is_given
is_given-append x n [] = ground arith
is_given-append x n (y ∷ before) = ground (arith, is_given-append x n before)

AreNew-Avoids :
    (x : ℕ) (before ns : List ℕ) → is_given x before ≡ true → AreNew before ns → Avoids x ns
AreNew-Avoids x before [] given new = tt
AreNew-Avoids x before (n ∷ ns) given (high, unused, new) = (
  elim (Bool-cases (x == n)) [
    | inl same ↦
        let equal : x ≡ n = ground arith in
        let both : is_given x before ≡ false = rw equal unused in absurd (ground arith)
    | inr other ↦ other
  ],
  AreNew-Avoids x (before ++ n ∷ []) ns (is_given-append x n before ∙ ground arith) new,
)

pub AreNew-Differ : (before ns : List ℕ) → AreNew before ns → Differ ns
AreNew-Differ before [] new = tt
AreNew-Differ before (n ∷ ns) (high, unused, new) = (
  AreNew-Avoids n (before ++ n ∷ []) ns (is_given-append n n before ∙ ground arith) new,
  AreNew-Differ (before ++ n ∷ []) ns new,
)

-- The search finds no open pipe for any of these numbers.
abbrev AreFoundShut : List ℕ → ℕ → List Fd → Type 0
AreFoundShut [] k fds = Unit
AreFoundShut (n ∷ ns) k fds = (pipe_in (search_fd n k fds) ≡ none) × AreFoundShut ns k fds

past_first :
    (x : Fd) (k : ℕ) (fds : List Fd) (ns : List ℕ)
    → Avoids x.child_fd ns
    → AreFoundShut ns k (x ∷ fds)
    → AreFoundShut ns (suc k) fds
unfolding search_fd
past_first x k fds [] apart shut = tt
past_first x k fds (n ∷ ns) (other, apart) (first, shut) =
    (rw other at first, past_first x k fds ns apart shut)

shut_is_open : (cfd : Fd) → cfd.pipe_fd ≡ none → is_open cfd ≡ 0
shut_is_open cfd shut = ground arith

found_first :
    (x : Fd) (k : ℕ) (fds : List Fd)
    → pipe_in (search_fd x.child_fd k (x ∷ fds)) ≡ none
    → x.pipe_fd ≡ none
unfolding search_fd
found_first x k fds shut =
    let self : (x.child_fd == x.child_fd) ≡ true = ground arith in rw self at shut

all_found_shut :
    (k : ℕ) (fds : List Fd)
    → Differ (numbers fds)
    → AreFoundShut (numbers fds) k fds
    → total is_open fds ≡ 0
all_found_shut k [] differ shut = refl
all_found_shut k (x ∷ fds) (apart, differ) (first, shut) =
    let here : x.pipe_fd ≡ none = found_first x k fds first in
    omega (
      arith,
      all_found_shut (suc k) fds differ (past_first x k fds (numbers fds) apart shut),
      shut_is_open x here,
    )

AreShut-AreFoundShut :
    (a b c : Fd) (others : List Fd) (before ns : List ℕ)
    → AreNew before ns
    → AreShut ns (a ∷ b ∷ c ∷ others)
    → AreFoundShut ns 3 others
unfolding get_fd
AreShut-AreFoundShut a b c others before [] new shut = tt
AreShut-AreFoundShut a b c others before (n ∷ ns) (high, unused, new) (first, shut) =
    (rw high at first, AreShut-AreFoundShut a b c others (before ++ n ∷ []) ns new shut)

-- All descriptors of a child: 0, 1 and 2, and the others with numbers that passed the checks.
pub all_shut :
    (fds : List Fd) (ns : List ℕ)
    → numbers fds ≡ 0 ∷ 1 ∷ 2 ∷ ns
    → AreNew [] ns
    → AreShut (numbers fds) fds
    → total is_open fds ≡ 0
unfolding get_fd at_index
all_shut [] ns numbered new shut = absurd (ground arith)
all_shut (a ∷ []) ns numbered new shut = absurd (ground arith)
all_shut (a ∷ b ∷ []) ns numbered new shut = absurd (ground arith)
all_shut (a ∷ b ∷ c ∷ others) ns numbered new shut =
    let (first, (second, (third, rest))) =
      subst (λ l. AreShut l (a ∷ b ∷ c ∷ others)) numbered shut in
    let same : numbers others ≡ ns = ground arith in
    let found =
      subst (λ l. AreFoundShut l 3 others) (sym same)
        (AreShut-AreFoundShut a b c others [] ns new rest) in
    let differ = subst (λ l. Differ l) (sym same) (AreNew-Differ [] ns new) in
    omega (
      arith,
      all_found_shut 3 others differ found,
      shut_is_open a first,
      shut_is_open b second,
      shut_is_open c third,
    )

no_pipe : (d : ℕ) (o : Option ℕ) → is_some o ≡ false → one_if d o ≡ 0
no_pipe d none h = refl
no_pipe d (some fd) h = absurd (ground arith)

pub none_held :
    (d : ℕ) (fds : List Fd) → AreRaw fds → total is_open fds ≡ 0 → total (held d) fds ≡ 0
none_held d [] raw shut = refl
none_held d (cfd ∷ fds) ((inited, started, unclosed), raw) shut =
    let here : one_if d cfd.pipe_fd ≡ 0 = no_pipe d cfd.pipe_fd (ground arith) in
    let closing : one_if d cfd.closing_fd ≡ 0 = rw unclosed refl in
    omega (arith, none_held d fds raw (omega arith))
