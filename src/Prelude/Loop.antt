-- ===== src/Prelude/Loop.antt =====
-- A C loop as the repetition of a step: the step says whether to go round again, to leave the
-- loop, or to leave the function by an error; it hangs where a loop inside it does.
use Prim.Native.Nat.{ℕ, zero, suc, ◌<◌}
use mathlib.Core.Path.{◌≡◌, refl, subst}
use mathlib.Core.Logic.{◌≢◌, ◌⊎◌, inl, inr}
use native.Mathlib.Omega.{arith}

pub data Flow (E S : Type 0) : Type 0 where
  again : S → Flow E S
  stop : S → Flow E S
  throw : E → Flow E S
  hang : Flow E S

-- `stuck`: the fuel ran out.
pub data Result (E S : Type 0) : Type 0 where
  ok : S → Result E S
  error : E → Result E S
  stuck : Result E S

infixl 5 ◌>>=◌
abbrev pub ◌>>=◌ : {E A B : Type 0} → Result E A → (A → Result E B) → Result E B
ok a >>= f = f a
error e >>= f = error e
stuck >>= f = stuck

pub bind-ne-stuck :
    {E A B : Type 0} (m : Result E A) (f : A → Result E B)
    → m ≢ stuck
    → ((a : A) → m ≡ ok a → f a ≢ stuck)
    → (m >>= f) ≢ stuck
bind-ne-stuck (ok a) f h k = k a refl
bind-ne-stuck (error e) f h k = λ e. cc
bind-ne-stuck stuck f h k = absurd (h refl)

pub bind-eq-ok :
    {E A B : Type 0} (m : Result E A) (f : A → Result E B) {b : B}
    → (m >>= f) ≡ ok b
    → (a : A) × (m ≡ ok a) × (f a ≡ ok b)
bind-eq-ok (ok a) f h = (a, refl, h)
bind-eq-ok (error e) f h = cc
bind-eq-ok stuck f h = cc

-- What follows a step, given what to do for another round.
abbrev pub proceed : {E S : Type 0} → Flow E S → (S → Result E S) → Result E S
proceed (again s) round = round s
proceed (stop s) round = ok s
proceed (throw e) round = error e
proceed hang round = stuck

-- The result of an inner call as a step of the loop that makes it.
abbrev pub resume : {E S : Type 0} → Result E S → Flow E S
resume (ok s) = again s
resume (error e) = throw e
resume stuck = hang

module _ {E S : Type 0} (step : S → Flow E S) where
  pub loop : ℕ → S → Result E S
  loop zero s = stuck
  loop (suc fuel) s = proceed (step s) (loop fuel)

module _ {E S : Type 0} (measure : S → ℕ) (step : S → Flow E S) where
  -- The loop with one more round of fuel than the measure of its state.
  unfoldable pub run : S → Result E S
  unfolding loop
  run s = loop step (suc (measure s)) s

  -- Every further round is at a smaller measure.
  abbrev pub Decreases : Type 0
  Decreases = (s s' : S) → step s ≡ again s' → measure s' < measure s

module _ {E S : Type 0} (measure : S → ℕ) (step : S → Flow E S)
    (down : Decreases measure step) where
  -- Any fuel above the measure gives the same result.
  loop_fuel : (n m : ℕ) (s : S) → measure s < n → measure s < m → loop step n s ≡ loop step m s
  unfolding loop
  loop_fuel zero m s h k = elim h [ ]
  loop_fuel (suc n) zero s h k = elim k [ ]
  loop_fuel (suc n) (suc m) s h k =
      same (step s)
        (λ s' e. loop_fuel n m s' (omega (arith, down s s' e)) (omega (arith, down s s' e)))
    where
      same :
          (f : Flow E S)
          → ((s' : S) → f ≡ again s' → loop step n s' ≡ loop step m s')
          → proceed f (loop step n) ≡ proceed f (loop step m)
      same (again s') ih = ih s' refl
      same (stop s') ih = refl
      same (throw x) ih = refl
      same hang ih = refl

  -- A round can be taken off the front of a run.
  pub run-again : (s s' : S) → step s ≡ again s' → run measure step s ≡ run measure step s'
  unfolding run
  run-again s s' e =
      rw (e, loop) (loop_fuel (measure s) (suc (measure s')) s' (down s s' e) (omega arith))

  pub run-stop : (s s' : S) → step s ≡ stop s' → run measure step s ≡ ok s'
  unfolding run
  run-stop s s' e = rw (e, loop)

  pub run-throw : (s : S) (x : E) → step s ≡ throw x → run measure step s ≡ error x
  unfolding run
  run-throw s x e = rw (e, loop)

  -- A run is a step, and a run of what is left.
  pub run-step : (s : S) → run measure step s ≡ proceed (step s) (run measure step)
  run-step s = by_step (step s) refl
    where
      by_step : (f : Flow E S) → step s ≡ f → run measure step s ≡ proceed f (run measure step)
      by_step (again s') e = run-again s s' e
      by_step (stop s') e = unfold run loop in rw e
      by_step (throw x) e = unfold run loop in rw e
      by_step hang e = unfold run loop in rw e

module _ {E S : Type 0} (measure : S → ℕ) (step : S → Flow E S) (down : Decreases measure step)
    (live : (s : S) → step s ≢ hang) where
  loop-ne-stuck : (n : ℕ) (s : S) → measure s < n → loop step n s ≢ stuck
  unfolding loop
  loop-ne-stuck zero s h = elim h [ ]
  loop-ne-stuck (suc n) s h =
      total (step s) (live s) (λ s' e. loop-ne-stuck n s' (omega (arith, down s s' e)))
    where
      total :
          (f : Flow E S)
          → f ≢ hang
          → ((s' : S) → f ≡ again s' → loop step n s' ≢ stuck)
          → proceed f (loop step n) ≢ stuck
      total (again s') h ih = ih s' refl
      total (stop s') h ih = λ e. cc
      total (throw x) h ih = λ e. cc
      total hang h ih = absurd (h refl)

  -- The loop ends.
  pub run-ne-stuck : (s : S) → run measure step s ≢ stuck
  unfolding run
  run-ne-stuck s = loop-ne-stuck (suc (measure s)) s (omega arith)

module _ {E S : Type 0} (step : S → Flow E S) (P : S → Type 0) where
  -- What each further round and each exit keeps holds where the loop ends.
  abbrev pub Keeps : Type 0
  Keeps = (s s' : S) → P s → (step s ≡ again s') ⊎ (step s ≡ stop s') → P s'

  loop-inv : Keeps → (n : ℕ) (s r : S) → P s → loop step n s ≡ ok r → P r
  unfolding loop
  loop-inv keep zero s r p e = cc
  loop-inv keep (suc n) s r p e =
      inv (step s) (λ s' h. keep s s' p h) (λ s' h. loop-inv keep n s' r h) e
    where
      inv :
          (f : Flow E S)
          → ((s' : S) → (f ≡ again s') ⊎ (f ≡ stop s') → P s')
          → ((s' : S) → P s' → loop step n s' ≡ ok r → P r)
          → proceed f (loop step n) ≡ ok r
          → P r
      inv (again s') k ih e = ih s' (k s' (inl refl)) e
      inv (stop s') k ih e = subst P (cc) (k s' (inr refl))
      inv (throw x) k ih e = cc
      inv hang k ih e = cc

module _ {E S : Type 0} (measure : S → ℕ) (step : S → Flow E S) (P : S → Type 0) where
  pub run-inv : Keeps step P → (s r : S) → P s → run measure step s ≡ ok r → P r
  unfolding run
  run-inv keep s r = loop-inv step P keep (suc (measure s)) s r

-- What a step that can neither fail nor hang makes of its state: `P` for another round, `Q` at the
-- end.
abbrev pub Steps : {E S : Type 0} → (S → Type 0) → (S → Type 0) → Flow E S → Type 0
Steps P Q (again s) = P s
Steps P Q (stop s) = Q s
Steps P Q (throw e) = ⊥
Steps P Q hang = ⊥

module _ {E S : Type 0} (measure : S → ℕ) (step : S → Flow E S) (P Q : S → Type 0)
    (down : Decreases measure step) (steps : (s : S) → P s → Steps P Q (step s)) where
  loop-total : (n : ℕ) (s : S) → measure s < n → P s → (r : S) × (loop step n s ≡ ok r) × Q r
  unfolding loop
  loop-total zero s h p = elim h [ ]
  loop-total (suc n) s h p =
      after (step s) (λ s' e. loop-total n s' (omega (arith, down s s' e))) (steps s p)
    where
      after :
          (f : Flow E S)
          → ((s' : S) → f ≡ again s' → P s' → (r : S) × (loop step n s' ≡ ok r) × Q r)
          → Steps P Q f
          → (r : S) × (proceed f (loop step n) ≡ ok r) × Q r
      after (again s') ih p' = ih s' refl p'
      after (stop s') ih q = (s', refl, q)
      after (throw e) ih z = absurd z
      after hang ih z = absurd z

  -- Such a loop ends, and ends well.
  pub run-total : (s : S) → P s → (r : S) × (run measure step s ≡ ok r) × Q r
  unfolding run
  run-total s p = loop-total (suc (measure s)) s (omega arith) p
