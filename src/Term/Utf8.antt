-- ===== src/Term/Utf8.antt =====
-- Code points in text, and the columns that they take.
-- On bytes `c & 0x1f` and its like are remainders, and `(cp << 6) | (c & 0x3f)` is a sum.
pub mod Encode
pub mod Ranges
use mathlib.Core.Logic.{dite}
use mathlib.Core.WellFounded.{Acc}
use native.Mathlib.Decide.{dec_lt}
use yapara_c.Prelude.Measure.{Smaller, accessible}
use yapara_c.Prelude.{
  ℕ, zero, suc, ◌+◌, ◌-◌, ◌*◌, ◌/◌, ◌%◌, ◌^◌, ◌<◌, Bool, true, false, ◌&&◌, ◌||◌, List, [], ◌∷◌,
  Option, none, some, ltb, leb, ◌==◌, if◌then◌else◌, length, get_or, arith,
}

abbrev pub Bytes : Type 0
Bytes = List ℕ

-- `(c & 0xc0) == 0x80`
abbrev pub is_continuation : ℕ → Bool
is_continuation c = leb 0x80 c && ltb c 0xc0

-- The loop over the continuation bytes, with the rounds left.
unfoldable pub continue_cp : ℕ → ℕ → Bytes → Option ℕ
continue_cp zero cp p = some cp
continue_cp (suc n) cp [] = none
continue_cp (suc n) cp (c ∷ p) =
    let rest = continue_cp n ((cp * 64) % 2 ^ 32 + c % 64) p in
    if is_continuation c then rest else none

-- Overlong forms and surrogates are refused.
unfoldable pub check_cp : ℕ → Option ℕ → Option (ℕ × ℕ)
check_cp need none = none
check_cp need (some cp) =
    if (need == 3 && ltb cp 0x800) || (need == 4 && ltb cp 0x10000)
    then none
    else if leb 0xd800 cp && leb cp 0xdfff
    then none
    else some (cp, need)

-- `p` is what follows the first byte.
unfoldable pub decode_rest : ℕ → ℕ → Bytes → Option (ℕ × ℕ)
decode_rest need cp p =
    if ltb (suc (length p)) need then none else check_cp need (continue_cp (need - 1) cp p)

-- `utf8_decode`: the code point and the number of bytes; `none` is the result 0.
unfoldable pub utf8_decode : Bytes → Option (ℕ × ℕ)
utf8_decode [] = none
utf8_decode (c ∷ p) =
    if ltb c 0x80
    then some (c, 1)
    else if ltb c 0xc2
    then none
    else if ltb c 0xe0
    then decode_rest 2 (c % 32) p
    else if ltb c 0xf0
    then decode_rest 3 (c % 16) p
    else if ltb c 0xf5
    then decode_rest 4 (c % 8) p
    else none

-- `CpRange`: first and last.
abbrev pub CpRange : Type 0
CpRange = ℕ × ℕ

abbrev pub zero_width_ranges : List CpRange
zero_width_ranges =
    (0x0300, 0x036f)
    ∷ (0x0483, 0x0489)
    ∷ (0x0591, 0x05bd)
    ∷ (0x05bf, 0x05bf)
    ∷ (0x05c1, 0x05c2)
    ∷ (0x05c4, 0x05c5)
    ∷ (0x05c7, 0x05c7)
    ∷ (0x0610, 0x061a)
    ∷ (0x064b, 0x065f)
    ∷ (0x0670, 0x0670)
    ∷ (0x06d6, 0x06dc)
    ∷ (0x06df, 0x06e4)
    ∷ (0x06e7, 0x06e8)
    ∷ (0x06ea, 0x06ed)
    ∷ (0x0711, 0x0711)
    ∷ (0x0730, 0x074a)
    ∷ (0x07a6, 0x07b0)
    ∷ (0x07eb, 0x07f3)
    ∷ (0x0816, 0x0819)
    ∷ (0x081b, 0x0823)
    ∷ (0x0825, 0x0827)
    ∷ (0x0829, 0x082d)
    ∷ (0x0900, 0x0903)
    ∷ (0x093a, 0x093c)
    ∷ (0x0941, 0x0948)
    ∷ (0x094d, 0x094d)
    ∷ (0x0951, 0x0957)
    ∷ (0x0e31, 0x0e31)
    ∷ (0x0e34, 0x0e3a)
    ∷ (0x0e47, 0x0e4e)
    ∷ (0x135d, 0x135f)
    ∷ (0x1ab0, 0x1aff)
    ∷ (0x1dc0, 0x1dff)
    ∷ (0x200b, 0x200f)
    ∷ (0x2028, 0x202e)
    ∷ (0x2060, 0x2064)
    ∷ (0x2066, 0x206f)
    ∷ (0x20d0, 0x20f0)
    ∷ (0x302a, 0x302f)
    ∷ (0x3099, 0x309a)
    ∷ (0xfe00, 0xfe0f)
    ∷ (0xfe20, 0xfe2f)
    ∷ (0xfeff, 0xfeff)
    ∷ (0xfff9, 0xfffb)
    ∷ (0xe0100, 0xe01ef)
    ∷ []

abbrev pub wide_ranges : List CpRange
wide_ranges =
    (0x1100, 0x115f)
    ∷ (0x2e80, 0x303e)
    ∷ (0x3041, 0x33ff)
    ∷ (0x3400, 0x4dbf)
    ∷ (0x4e00, 0x9fff)
    ∷ (0xa000, 0xa4cf)
    ∷ (0xac00, 0xd7a3)
    ∷ (0xf900, 0xfaff)
    ∷ (0xfe10, 0xfe19)
    ∷ (0xfe30, 0xfe6f)
    ∷ (0xff00, 0xff60)
    ∷ (0xffe0, 0xffe6)
    ∷ (0x1f300, 0x1f64f)
    ∷ (0x1f680, 0x1f6ff)
    ∷ (0x1f900, 0x1f9ff)
    ∷ (0x1fa70, 0x1faff)
    ∷ (0x20000, 0x2fffd)
    ∷ (0x30000, 0x3fffd)
    ∷ []

-- The variables of the search.
pub record Span : Type 0 where
  pub lo : ℕ
  pub hi : ℕ

-- How many ranges are left.
abbrev pub breadth : Span → ℕ
breadth s = s.hi - s.lo

abbrev pub mid : Span → ℕ
mid s = s.lo + (s.hi - s.lo) / 2

-- `hi = mid`, and `lo = mid + 1`
abbrev pub lower : Span → Span
lower s = record s { hi = mid s }

abbrev pub upper : Span → Span
upper s = record s { lo = mid s + 1 }

pub breadth-lower : (s : Span) → s.lo < s.hi → breadth (lower s) < breadth s
breadth-lower s h = omega arith

pub breadth-upper : (s : Span) → s.lo < s.hi → breadth (upper s) < breadth s
breadth-upper s h = omega arith

abbrev pub range_at : List CpRange → ℕ → CpRange
range_at ranges i = get_or ranges i (0, 0)

-- The loop of `in_ranges`.
unfoldable pub search_ranges : ℕ → List CpRange → (r : Span) → Acc (Smaller breadth) r → Bool
search_ranges cp ranges r (Acc.intro _ smaller) =
    dite (dec_lt r.lo r.hi)
      (λ h. elim (ltb cp (range_at ranges (mid r)).0) [
        | true ↦ search_ranges cp ranges (lower r) (smaller (lower r) (breadth-lower r h))
        | false ↦ elim (ltb (range_at ranges (mid r)).1 cp) [
          | true ↦ search_ranges cp ranges (upper r) (smaller (upper r) (breadth-upper r h))
          | false ↦ true
        ]
      ])
      (λ _. false)

-- `in_ranges`
unfoldable pub in_ranges : ℕ → List CpRange → Bool
in_ranges cp ranges =
    search_ranges cp ranges (record { lo = 0; hi = length ranges }) (accessible breadth _)

-- `codepoint_columns`
unfoldable pub codepoint_columns : ℕ → ℕ
codepoint_columns cp =
    if cp == 0
    then 0
    else if in_ranges cp zero_width_ranges
    then 0
    else if in_ranges cp wide_ranges
    then 2
    else 1
