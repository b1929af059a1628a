-- ===== src/Cmdline/Checked.antt =====
-- What holds when a command line has been processed, and that processing ends.
use yapara_c.Prelude.{
  ℕ, ◌+◌, ◌≤◌, ◌<◌, Bool, true, false, ◌||◌, not, List, [], ◌∷◌, Option, none, some, ◌≡◌, ◌≢◌, ◌⊎◌,
  inl, inr, refl, sym, subst, arith, if◌then◌else◌, length, is_same, is_same_eq, Bool-cases,
  Option-cases,
}
use yapara_c.Prelude.Loop.{Result, ok, error, stuck, ◌>>=◌, run-ne-stuck}
use yapara_c.Cmdline.{
  Bytes, Arg, Excl, Mode, Error, exclusive_given, mandatory_missing, State, is_used,
  check_mandatory, check_group, group_error, first_error, check_exclusive,
}
use yapara_c.Cmdline.Process.{args_step, unless_error, check_options, process_args}
use yapara_c.Cmdline.Rounds.{args_step-Decreases, args_step-live}

abbrev pub IsAmong : Bytes → List Bytes → Type 0
IsAmong name [] = ⊥
IsAmong name (other ∷ used) = (name ≡ other) ⊎ IsAmong name used

-- How many of these options were used.
abbrev pub count_used : List Bytes → List Bytes → ℕ
count_used [] used = 0
count_used (name ∷ names) used = (if is_used name used then 1 else 0) + count_used names used

-- No group has two options that were used, and one that wants one has one.
abbrev pub AreExclusive : List Excl → List Bytes → Type 0
AreExclusive [] used = Unit
AreExclusive (group ∷ groups) used =
    (count_used group.names used ≤ 1)
    × ((group.one_required ≡ false) ⊎ (0 < count_used group.names used))
    × AreExclusive groups used

module _ {S : Type 0} where
  -- Every option that is mandatory was used.
  abbrev pub AreSupplied : List (Arg S) → List Bytes → Type 0
  AreSupplied [] used = Unit
  AreSupplied (arg ∷ args) used =
      ((arg.mandatory ≡ false) ⊎ IsAmong arg.option_name used) × AreSupplied args used

is_used-IsAmong : (name : Bytes) (used : List Bytes) → is_used name used ≡ true → IsAmong name used
unfolding is_used
is_used-IsAmong name [] h = absurd (cc)
is_used-IsAmong name (other ∷ used) h = elim (Bool-cases (is_same name other)) [
  | inl same ↦ inl (is_same_eq name other same)
  | inr different ↦ inr (is_used-IsAmong name used (ground arith))
]

check_mandatory-AreSupplied :
    {S : Type 0} (args : List (Arg S)) (used : List Bytes)
    → check_mandatory args used ≡ true
    → AreSupplied args used
unfolding check_mandatory
check_mandatory-AreSupplied [] used h = tt
check_mandatory-AreSupplied (arg ∷ args) used h =
    let rest = check_mandatory-AreSupplied args used (ground arith) in
    elim (Bool-cases arg.mandatory) [
      | inl must ↦ (inr (is_used-IsAmong arg.option_name used (ground arith)), rest)
      | inr may ↦ (inl may, rest)
    ]

-- What the loop over a group finds, where it has found one already or none.
check_group-count :
    (names : List Bytes) (got found : Bool) (used : List Bytes)
    → check_group names got used ≡ some found
    → (count_used names used + (if got then 1 else 0) ≤ 1)
      × ((if found then 1 else 0) ≡ count_used names used + (if got then 1 else 0))
unfolding check_group
check_group-count [] got found used h = ground arith
check_group-count (name ∷ names) got found used h =
    ground (arith, check_group-count names (got || is_used name used) found used)

-- A group that is no error.
group_error-none :
    (names : List Bytes) (one_required : Bool) (used : List Bytes)
    → group_error (check_group names false used) one_required ≡ none
    → (count_used names used ≤ 1) × ((one_required ≡ false) ⊎ (0 < count_used names used))
group_error-none names one_required used h = elim (Option-cases (check_group names false used)) [
  | inl two ↦ let wrong : ◌≡◌ {A = Option Error} (some exclusive_given) none = rw two at h in cc
  | inr (found, e) ↦
      let clear : group_error (some found) one_required ≡ none = rw e at h in
      let (few, same) = check_group-count names false found used e in
      (
        omega (arith, few),
        elim (Bool-cases one_required) [
          | inl wanted ↦ inr (ground (arith, same))
          | inr free ↦ inl free
        ],
      )
]

first_error-none : (e rest : Option Error) → first_error e rest ≡ none → (e ≡ none) × (rest ≡ none)
first_error-none none rest h = (refl, h)
first_error-none (some e) rest h = cc

check_exclusive-AreExclusive :
    (groups : List Excl) (used : List Bytes)
    → check_exclusive groups used ≡ none
    → AreExclusive groups used
unfolding check_exclusive
check_exclusive-AreExclusive [] used h = tt
check_exclusive-AreExclusive (group ∷ groups) used h =
    let (fine, rest) = first_error-none _ _ h in
    let (few, one) = group_error-none group.names group.one_required used fine in
    (few, one, check_exclusive-AreExclusive groups used rest)

-- What a result tells of the options that were used.
abbrev pub IsChecked : {S : Type 0} → Mode S → Result Error (State S) → Type 0
IsChecked mode (ok s) = AreSupplied mode.args s.used × AreExclusive mode.exclusions s.used
IsChecked mode (error e) = Unit
IsChecked mode stuck = ⊥

module _ {S : Type 0} (mode : Mode S) where
  unless_error-IsChecked :
      (e : Option Error) (s : State S)
      → AreSupplied mode.args s.used
      → check_exclusive mode.exclusions s.used ≡ e
      → IsChecked mode (unless_error mode e s)
  unless_error-IsChecked none s supplied h =
      (supplied, check_exclusive-AreExclusive mode.exclusions s.used h)
  unless_error-IsChecked (some e) s supplied h = tt

  check_options-IsChecked : (s : State S) → IsChecked mode (check_options mode s)
  unfolding check_options
  check_options-IsChecked s = elim (Bool-cases (check_mandatory mode.args s.used)) [
    | inl given ↦
        subst
          (λ (b : Bool). IsChecked mode (
            if not b
            then error mandatory_missing
            else unless_error mode (check_exclusive mode.exclusions s.used) s))
          (sym given)
          (unless_error-IsChecked _ s (check_mandatory-AreSupplied mode.args s.used given) refl)
    | inr missing ↦
        subst
          (λ (b : Bool). IsChecked mode (
            if not b
            then error mandatory_missing
            else unless_error mode (check_exclusive mode.exclusions s.used) s))
          (sym missing) tt
  ]

  bind-IsChecked :
      (r : Result Error (State S)) → r ≢ stuck → IsChecked mode (r >>= check_options mode)
  bind-IsChecked (ok s) h = check_options-IsChecked s
  bind-IsChecked (error e) h = tt
  bind-IsChecked stuck h = h refl

  -- `yc_cmdline_try_process_args` ends, whatever the words and the handlers are. Where it succeeds,
  -- every mandatory option has been used, no two options of an exclusive group have been, and one
  -- of each group that wants one.
  pub process_args-IsChecked : (s : State S) → IsChecked mode (process_args mode s)
  unfolding process_args
  process_args-IsChecked s = bind-IsChecked _ (
      run-ne-stuck (λ t. length t.rest) (λ t. args_step mode t.rest t) (args_step-Decreases mode)
        (args_step-live mode) s)
