-- ===== src/Term/Utf8/Ranges.antt =====
-- The binary search of `in_ranges` on a table in order, and the two tables.
use mathlib.Core.Logic.{dif_pos, dif_neg}
use mathlib.Core.WellFounded.{Acc}
use native.Mathlib.Bridge.{le_prop}
use native.Mathlib.Decide.{dec_lt}
use yapara_c.Prelude.Measure.{Smaller, accessible}
use yapara_c.Prelude.{
  ℕ, zero, suc, ◌≤◌, ◌<◌, Bool, true, false, ◌&&◌, ◌||◌, List, [], ◌∷◌, ◌≡◌, refl, sym, ltb, leb,
  ◌==◌, if◌then◌else◌, length, arith, Bool-cases, inl, inr,
}
use yapara_c.Term.Utf8.{
  CpRange, Span, breadth, mid, lower, upper, breadth-lower, breadth-upper, range_at, search_ranges,
  in_ranges, zero_width_ranges, wide_ranges, codepoint_columns,
}

-- The ranges are in order, apart, and not below `b`.
abbrev pub IsAscending : ℕ → List CpRange → Type 0
IsAscending b [] = Unit
IsAscending b ((x, y) ∷ ranges) = (b ≤ x) × (x ≤ y) × IsAscending (suc y) ranges

pub zero_width_ranges-IsAscending : IsAscending 0 zero_width_ranges
zero_width_ranges-IsAscending = omega arith

pub wide_ranges-IsAscending : IsAscending 0 wide_ranges
wide_ranges-IsAscending = omega arith

-- Whether some range has the code point.
abbrev pub is_member : ℕ → List CpRange → Bool
is_member cp [] = false
is_member cp ((x, y) ∷ ranges) = (leb x cp && leb cp y) || is_member cp ranges

range_at-ge :
    (b : ℕ) (ranges : List CpRange) (i : ℕ)
    → IsAscending b ranges
    → i < length ranges
    → (b ≤ (range_at ranges i).0) × ((range_at ranges i).0 ≤ (range_at ranges i).1)
range_at-ge b [] i a h = absurd (omega arith)
range_at-ge b ((x, y) ∷ ranges) zero a h = (a.0, a.1)
range_at-ge b ((x, y) ∷ ranges) (suc i) a h =
    let (low, ordered) = range_at-ge (suc y) ranges i a.2 (omega arith) in
    (omega (arith, a.0, a.1), ordered)

range_at-lt :
    (b : ℕ) (ranges : List CpRange) (i j : ℕ)
    → IsAscending b ranges
    → i < j
    → j < length ranges
    → (range_at ranges i).1 < (range_at ranges j).0
range_at-lt b [] i j a h k = absurd (omega arith)
range_at-lt b ((x, y) ∷ ranges) i zero a h k = absurd (omega arith)
range_at-lt b ((x, y) ∷ ranges) zero (suc j) a h k =
    omega (arith, (range_at-ge (suc y) ranges j a.2 (omega arith)).0)
range_at-lt b ((x, y) ∷ ranges) (suc i) (suc j) a h k =
    range_at-lt (suc y) ranges i j a.2 (omega arith) (omega arith)

-- The code point is in the range at an index.
abbrev Within : ℕ → List CpRange → ℕ → Type 0
Within cp ranges i = ((range_at ranges i).0 ≤ cp) × (cp ≤ (range_at ranges i).1)

is_member_inside :
    (cp : ℕ) (ranges : List CpRange) (i : ℕ)
    → i < length ranges
    → Within cp ranges i
    → is_member cp ranges ≡ true
is_member_inside cp [] i h w = absurd (omega arith)
is_member_inside cp ((x, y) ∷ ranges) zero h w = ground arith
is_member_inside cp ((x, y) ∷ ranges) (suc i) h w =
    ground (arith, is_member_inside cp ranges i (omega arith) w)

is_member_none :
    (cp : ℕ) (ranges : List CpRange)
    → ((i : ℕ) → i < length ranges → ¬ Within cp ranges i)
    → is_member cp ranges ≡ false
is_member_none cp [] h = refl
is_member_none cp ((x, y) ∷ ranges) h =
    ground (arith, h 0 (omega arith), is_member_none cp ranges (λ i k. h (suc i) (omega arith)))

module _ (cp : ℕ) (ranges : List CpRange) (a : IsAscending 0 ranges) where
  -- What each result of the loop tells about the ranges from `lo` to `hi`.
  abbrev Explains : Span → Bool → Type 0
  Explains r true = (i : ℕ) × (i < length ranges) × Within cp ranges i
  Explains r false = (i : ℕ) → r.lo ≤ i → i < r.hi → ¬ Within cp ranges i

  lower-none :
      (r : Span)
      → r.lo < r.hi
      → r.hi ≤ length ranges
      → cp < (range_at ranges (mid r)).0
      → (b : Bool) → Explains (lower r) b
      → Explains r b
  lower-none r h k below true e = e
  lower-none r h k below false e = λ i low high w. elim (Bool-cases (ltb i (mid r))) [
    | inl left ↦ e i low (ground arith) w
    | inr right ↦ elim (Bool-cases (ltb (mid r) i)) [
      | inl after ↦ omega (
        arith,
        w,
        below,
        range_at-lt 0 ranges (mid r) i a (ground arith) (omega arith),
        range_at-ge 0 ranges (mid r) a (omega arith),
      )
      | inr same ↦ let e' : i ≡ mid r = ground arith in omega (arith, (rw e' at w), below)
    ]
  ]

  upper-none :
      (r : Span)
      → r.lo < r.hi
      → r.hi ≤ length ranges
      → (range_at ranges (mid r)).1 < cp
      → (b : Bool) → Explains (upper r) b
      → Explains r b
  upper-none r h k above true e = e
  upper-none r h k above false e = λ i low high w. elim (Bool-cases (ltb (mid r) i)) [
    | inl right ↦ e i (ground arith) high w
    | inr left ↦ elim (Bool-cases (ltb i (mid r))) [
      | inl before ↦ omega (
        arith,
        w,
        above,
        range_at-lt 0 ranges i (mid r) a (ground arith) (omega arith),
        range_at-ge 0 ranges (mid r) a (omega arith),
      )
      | inr same ↦ let e' : i ≡ mid r = ground arith in omega (arith, (rw e' at w), above)
    ]
  ]

  search_ranges-Explains :
      (r : Span) (w : Acc (Smaller breadth) r)
      → r.hi ≤ length ranges
      → Explains r (search_ranges cp ranges r w)
  unfolding search_ranges
  search_ranges-Explains r (Acc.intro _ smaller) k = elim (dec_lt r.lo r.hi) [
    | no empty ↦ rw (dif_neg (dec_lt r.lo r.hi) empty) (λ i low high w. omega arith)
    | yes h ↦
        rw (dif_pos (dec_lt r.lo r.hi) le_prop h)
          (elim (Bool-cases (ltb cp (range_at ranges (mid r)).0)) [
            | inl below ↦ rw below (
                lower-none r h k (ground arith) _ (
                  search_ranges-Explains (lower r) (smaller (lower r) (breadth-lower r h))
                    (omega arith)))
            | inr not_below ↦ elim (Bool-cases (ltb (range_at ranges (mid r)).1 cp)) [
              | inl above ↦
                  rw (not_below, above)
                    (upper-none r h k (ground arith) _
                      (search_ranges-Explains (upper r) (smaller (upper r) (breadth-upper r h)) k))
              | inr inside ↦
                  rw (not_below, inside) (mid r, omega arith, (ground arith, ground arith))
            ]
          ])
  ]

  by_result :
      (b : Bool) → Explains (record { lo = 0; hi = length ranges }) b → b ≡ is_member cp ranges
  by_result true (i, h, w) = sym (is_member_inside cp ranges i h w)
  by_result false e = sym (is_member_none cp ranges (λ i h. e i (omega arith) h))

  -- On a table in order `in_ranges` finds a code point exactly if some range has it.
  pub in_ranges-is_member : in_ranges cp ranges ≡ is_member cp ranges
  unfolding in_ranges
  in_ranges-is_member = by_result _ (
      search_ranges-Explains (record { lo = 0; hi = length ranges }) (accessible breadth _)
        (omega arith))

-- A code point takes no column if it is 0 or in the first table, two if it is in the second only,
-- and one otherwise.
pub codepoint_columns-is_member :
    (cp : ℕ)
    → codepoint_columns cp ≡ (
        if cp == 0 || is_member cp zero_width_ranges
        then 0
        else if is_member cp wide_ranges
        then 2
        else 1)
unfolding codepoint_columns
codepoint_columns-is_member cp =
    rw
      (
        in_ranges-is_member cp zero_width_ranges zero_width_ranges-IsAscending,
        in_ranges-is_member cp wide_ranges wide_ranges-IsAscending,
      )
      (by_tests (cp == 0) (is_member cp zero_width_ranges) _)
  where
    by_tests :
        (zero_cp zero_width : Bool) (n : ℕ)
        → (if zero_cp then 0 else if zero_width then 0 else n)
          ≡ (if zero_cp || zero_width then 0 else n)
    by_tests true z n = refl
    by_tests false true n = refl
    by_tests false false n = refl
