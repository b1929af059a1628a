-- ===== src/Prelude/Measure.antt =====
-- Recursion by a measure.
use Prim.Native.Nat.{ℕ, zero, suc, ◌<◌}
use mathlib.Core.WellFounded.{Acc}
use native.Mathlib.Omega.{arith}

module _ {A : Type 0} (size : A → ℕ) where
  -- The first is smaller than the second.
  abbrev pub Smaller : A → A → Type 0
  Smaller a b = size a < size b

  Smaller-Acc : (fuel : ℕ) (b : A) → size b < fuel → Acc Smaller b
  Smaller-Acc zero b few = absurd (omega arith)
  Smaller-Acc (suc fuel) b few =
      Acc.intro b (λ a (less : size a < size b). Smaller-Acc fuel a (omega arith))

  unfoldable pub accessible : (b : A) → Acc Smaller b
  unfolding Smaller-Acc
  accessible b = Smaller-Acc (suc (size b)) b (omega arith)
