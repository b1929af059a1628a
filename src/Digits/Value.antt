-- ===== src/Digits/Value.antt =====
-- The digits of a number give it back.
use yapara_c.Prelude.{ℕ, zero, suc, ◌+◌, ◌*◌, ◌/◌, ◌<◌, List, [], ◌∷◌, ◌≡◌, arith}
use yapara_c.Digits.{digits}

-- What digits stand for, the last one first.
abbrev pub value : ℕ → List ℕ → ℕ
value radix [] = 0
value radix (d ∷ ds) = d + radix * value radix ds

abbrev pub AreDigits : ℕ → List ℕ → Type 0
AreDigits radix [] = Unit
AreDigits radix (d ∷ ds) = (d < radix) × AreDigits radix ds

pub value-digits_ten : (fuel n : ℕ) → n < fuel → value 10 (digits 10 fuel n) ≡ n
unfolding digits
value-digits_ten zero n h = elim h [ ]
value-digits_ten (suc fuel) n h = ground (arith, value-digits_ten fuel (n / 10))

pub value-digits_sixteen : (fuel n : ℕ) → n < fuel → value 16 (digits 16 fuel n) ≡ n
unfolding digits
value-digits_sixteen zero n h = elim h [ ]
value-digits_sixteen (suc fuel) n h = ground (arith, value-digits_sixteen fuel (n / 16))
