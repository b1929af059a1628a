-- ===== src/Common.antt =====
-- src/yc-common.c: the words for true and false. A string comes without its NUL.
pub mod Words
use yapara_c.Prelude.{
  is_same, ℕ, Bool, true, false, ◌&&◌, ◌||◌, List, [], ◌∷◌, Option, none, some, ◌==◌, if◌then◌else◌,
}

abbrev pub Bytes : Type 0
Bytes = List ℕ

-- `str[1] == 0`
unfoldable pub is_one_byte : Bytes → Bool
is_one_byte [] = false
is_one_byte (c ∷ []) = true
is_one_byte (c ∷ d ∷ ds) = false

-- The string is its first letter or the whole word.
abbrev pub is_short_or : Bytes → Bytes → Bool
is_short_or word str = is_one_byte str || is_same str word

abbrev pub when : Bool → Bool → Option Bool
when test value = if test then some value else none

-- `yc_parse_boolean`: the value that is put to `out`, or `none` where the result is false.
unfoldable pub parse_boolean : Bytes → Option Bool
parse_boolean [] = none
parse_boolean (c ∷ rest) =
    let str = c ∷ rest in
    if c == b'0'
    then when (is_same str (b'0' ∷ [])) false
    else if c == b'1'
    then when (is_same str (b'1' ∷ [])) true
    else if c == b'n'
    then when (is_short_or (b'n' ∷ b'o' ∷ []) str) false
    else if c == b'y'
    then when (is_short_or (b'y' ∷ b'e' ∷ b's' ∷ []) str) true
    else if c == b'N'
    then when (is_short_or (b'N' ∷ b'O' ∷ []) str) false
    else if c == b'Y'
    then when (is_short_or (b'Y' ∷ b'E' ∷ b'S' ∷ []) str) true
    else if c == b'f'
    then when (is_short_or (b'f' ∷ b'a' ∷ b'l' ∷ b's' ∷ b'e' ∷ []) str) false
    else if c == b't'
    then when (is_short_or (b't' ∷ b'r' ∷ b'u' ∷ b'e' ∷ []) str) true
    else if c == b'F'
    then when (is_short_or (b'F' ∷ b'A' ∷ b'L' ∷ b'S' ∷ b'E' ∷ []) str) false
    else if c == b'T'
    then when (is_short_or (b'T' ∷ b'R' ∷ b'U' ∷ b'E' ∷ []) str) true
    else none
