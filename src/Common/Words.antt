-- ===== src/Common/Words.antt =====
-- `yc_parse_boolean` against the lists of words that its comment gives.
use yapara_c.Prelude.{
  is_same, Bool, true, false, ◌||◌, List, [], ◌∷◌, Option, none, some, ◌≡◌, refl, arith,
  if◌then◌else◌,
}
use yapara_c.Common.{Bytes, is_one_byte, parse_boolean}

-- Whether a string is one of some words.
abbrev pub any_of : List Bytes → Bytes → Bool
any_of [] str = false
any_of (word ∷ words) str = is_same str word || any_of words str

-- 0 n no N NO f false F FALSE
abbrev pub false_words : List Bytes
false_words =
    (b'0' ∷ [])
    ∷ (b'n' ∷ [])
    ∷ (b'n' ∷ b'o' ∷ [])
    ∷ (b'N' ∷ [])
    ∷ (b'N' ∷ b'O' ∷ [])
    ∷ (b'f' ∷ [])
    ∷ (b'f' ∷ b'a' ∷ b'l' ∷ b's' ∷ b'e' ∷ [])
    ∷ (b'F' ∷ [])
    ∷ (b'F' ∷ b'A' ∷ b'L' ∷ b'S' ∷ b'E' ∷ [])
    ∷ []

-- 1 y yes Y YES t true T TRUE
abbrev pub true_words : List Bytes
true_words =
    (b'1' ∷ [])
    ∷ (b'y' ∷ [])
    ∷ (b'y' ∷ b'e' ∷ b's' ∷ [])
    ∷ (b'Y' ∷ [])
    ∷ (b'Y' ∷ b'E' ∷ b'S' ∷ [])
    ∷ (b't' ∷ [])
    ∷ (b't' ∷ b'r' ∷ b'u' ∷ b'e' ∷ [])
    ∷ (b'T' ∷ [])
    ∷ (b'T' ∷ b'R' ∷ b'U' ∷ b'E' ∷ [])
    ∷ []

-- What the lists say of a string.
abbrev pub meaning : Bytes → Option Bool
meaning str =
    if any_of false_words str then some false else if any_of true_words str then some true else none

-- `yc_parse_boolean` sets false on exactly the words of the first list, true on exactly those of the
-- second, and fails on every other string.
pub parse_boolean-meaning : (str : Bytes) → parse_boolean str ≡ meaning str
unfolding parse_boolean is_same is_one_byte
parse_boolean-meaning [] = refl
parse_boolean-meaning (c ∷ []) = ground arith
parse_boolean-meaning (c ∷ d ∷ ds) = ground arith
