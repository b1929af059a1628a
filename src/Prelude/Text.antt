-- ===== src/Prelude/Text.antt =====
-- Equality of byte strings, for `strcmp` and `memcmp`.
use Prim.Native.Nat.{ℕ}
use mathlib.Core.Path.{◌≡◌, refl}
use mathlib.Core.Bool.{Bool, true, false, ◌&&◌}
use mathlib.Core.List.{List, [], ◌∷◌}
use native.Mathlib.Omega.{arith}
use yapara_c.Prelude.Tests.{◌==◌}

unfoldable pub is_same : List ℕ → List ℕ → Bool
is_same [] [] = true
is_same [] (d ∷ ds) = false
is_same (c ∷ cs) [] = false
is_same (c ∷ cs) (d ∷ ds) = (c == d) && is_same cs ds

pub is_same_eq : (a b : List ℕ) → is_same a b ≡ true → a ≡ b
unfolding is_same
is_same_eq [] [] h = refl
is_same_eq [] (d ∷ ds) h = absurd (cc)
is_same_eq (c ∷ cs) [] h = absurd (cc)
is_same_eq (c ∷ cs) (d ∷ ds) h = ground (arith, is_same_eq cs ds)

pub is_same_self : (a : List ℕ) → is_same a a ≡ true
unfolding is_same
is_same_self [] = refl
is_same_self (c ∷ cs) = ground (arith, is_same_self cs)
