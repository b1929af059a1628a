-- ===== src/Term/Keys/Pending.antt =====
-- What is held after input has been fed, and that feeding it ends.
use yapara_c.Prelude.{
  ℕ, suc, ◌+◌, ◌-◌, ◌*◌, ◌%◌, ◌^◌, ◌≤◌, List, [], ◌∷◌, ◌++◌, ◌≡◌, ◌⊎◌, arith, length,
}
use yapara_c.Prelude.Loop.{Result, ok}
use yapara_c.Term.Utf8.{Bytes}
use yapara_c.Term.Keys.{
  Key, Input, decode_digits, decode_third, decode_escape, decode_one, max_pending,
}

decode_digits-le : (i value : ℕ) (p : Bytes) → (decode_digits i value p).0 ≤ i + length p
unfolding decode_digits
decode_digits-le i value [] = omega arith
decode_digits-le i value (c ∷ p) =
    ground (arith, decode_digits-le (suc i) ((value * 10 + (c - b'0')) % 2 ^ 32) p)

decode_third-le : (c : ℕ) (p : Bytes) → (decode_third c p).0 ≤ 3 + length p
unfolding decode_third
decode_third-le c p = ground (arith, decode_digits-le 2 0 (c ∷ p))

decode_escape-le : (p : Bytes) → (decode_escape p).0 ≤ suc (length p)
unfolding decode_escape
decode_escape-le [] = omega arith
decode_escape-le (c ∷ []) = ground arith
decode_escape-le (c ∷ d ∷ p) = ground (arith, decode_third-le d p)

-- No more is used than is there.
decode_one-le : (p : Bytes) → (decode_one p).0 ≤ length p
unfolding decode_one
decode_one-le [] = omega arith
decode_one-le (c ∷ p) = ground (arith, decode_escape-le p)

-- Nothing, or what could still become a longer sequence.
abbrev pub IsHeld : Bytes → Type 0
IsHeld p = (p ≡ []) ⊎ ((decode_one p).0 ≡ 0)

-- The keys before are a front of the keys after.
abbrev pub Extends : List Key → List Key → Type 0
Extends before after = (new : List Key) × (after ≡ before ++ new)

module _ (before : List Key) (n : ℕ) where
  abbrev Draining : Input → Type 0
  Draining s = (length s.pending ≤ n) × Extends before s.keys

-- What feeding bytes does, when no more than `max_pending` bytes are held before.
abbrev pub Feeds : Input → Result (Unit {0}) Input → Type 0
Feeds s result =
    (s' : Input) × (result ≡ ok s')
    × (length s'.pending ≤ max_pending)
    × IsHeld s'.pending
    × Extends s.keys s'.keys
