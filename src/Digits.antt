-- ===== src/Digits.antt =====
-- Numbers in digits, as `printf` writes them.
pub mod Value
use mathlib.Core.List.{reverse}
use yapara_c.Prelude.{ℕ, zero, suc, ◌+◌, ◌/◌, ◌%◌, List, [], ◌∷◌, map, ◌==◌, if◌then◌else◌}

-- The digits of a number, the last one first; fuel above the number is enough.
unfoldable pub digits : ℕ → ℕ → ℕ → List ℕ
digits radix zero n = []
digits radix (suc fuel) n =
    let rest = digits radix fuel (n / radix) in n % radix ∷ (if n / radix == 0 then [] else rest)

-- `%u`
unfoldable pub decimal : ℕ → List ℕ
decimal n = map (λ d. b'0' + d) (reverse (digits 10 (suc n) n))
