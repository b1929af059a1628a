-- ===== src/Ui/Index/Format.antt =====
-- The formatted index reads back as the index, at the width asked for.
use mathlib.Core.List.{reverse, reverse-cons}
use yapara_c.Prelude.{
  ℕ, zero, suc, ◌+◌, ◌-◌, ◌*◌, ◌/◌, ◌^◌, ◌≤◌, ◌<◌, Bool, true, false, List, [], ◌∷◌, ◌++◌, map, ◌≡◌,
  refl, ap, ◌∙◌, arith, ltb, if◌then◌else◌, length, replicate, length-append, length-replicate,
  take_of_le,
}
use yapara_c.Digits.{digits}
use yapara_c.Digits.Value.{value, value-digits_ten, value-digits_sixteen}
use yapara_c.Ui.Options.{Bytes, IndexFormat}
use yapara_c.Ui.Index.{
  max_width, index_buf_size, radix_of, digit_char, digit_chars, pad_length, format_index,
}

-- The number that a digit stands for.
abbrev pub digit_value : ℕ → ℕ
digit_value c = if ltb c b'a' then c - b'0' else c - b'a' + 10

-- A text read as a number: each digit after the other.
abbrev pub read_number : ℕ → ℕ → Bytes → ℕ
read_number radix acc [] = acc
read_number radix acc (c ∷ text) = read_number radix (acc * radix + digit_value c) text

read_number-append :
    (radix acc : ℕ) (a b : Bytes)
    → read_number radix acc (a ++ b) ≡ read_number radix (read_number radix acc a) b
read_number-append radix acc [] b = refl
read_number-append radix acc (c ∷ a) b = read_number-append radix (acc * radix + digit_value c) a b

AreBelow : ℕ → List ℕ → Type 0
AreBelow radix [] = Unit
AreBelow radix (d ∷ ds) = (d < radix) × AreBelow radix ds

digits-below_ten : (fuel n : ℕ) → AreBelow 10 (digits 10 fuel n)
unfolding digits AreBelow
digits-below_ten zero n = tt
digits-below_ten (suc fuel) n = ground (arith, digits-below_ten fuel (n / 10))

digits-below_sixteen : (fuel n : ℕ) → AreBelow 16 (digits 16 fuel n)
unfolding digits AreBelow
digits-below_sixteen zero n = tt
digits-below_sixteen (suc fuel) n = ground (arith, digits-below_sixteen fuel (n / 16))

digit_value-digit_char : (d : ℕ) → d < 16 → digit_value (digit_char d) ≡ d
digit_value-digit_char d h = ground arith

-- Reading the digits from the first one on.
read_number-reverse :
    (radix : ℕ) (ds : List ℕ)
    → radix ≤ 16
    → AreBelow radix ds
    → read_number radix 0 (reverse (map digit_char ds)) ≡ value radix ds
unfolding AreBelow
read_number-reverse radix [] h below = refl
read_number-reverse radix (d ∷ ds) h below =
    ap (read_number radix 0) (reverse-cons (digit_char d) (map digit_char ds))
    ∙ read_number-append radix 0 (reverse (map digit_char ds)) (digit_char d ∷ [])
    ∙ grind (
      arith,
      read_number-reverse radix ds h below.1,
      digit_value-digit_char d (omega (arith, below.0)),
    )

abbrev power : ℕ → ℕ → ℕ
power radix zero = 1
power radix (suc k) = radix * power radix k

digits-length_ten : (fuel n k : ℕ) → n < power 10 (suc k) → length (digits 10 fuel n) ≤ suc k
unfolding digits
digits-length_ten zero n k h = omega arith
digits-length_ten (suc fuel) n zero h = ground arith
digits-length_ten (suc fuel) n (suc k) h = ground (arith, digits-length_ten fuel (n / 10) k)

digits-length_sixteen : (fuel n k : ℕ) → n < power 16 (suc k) → length (digits 16 fuel n) ≤ suc k
unfolding digits
digits-length_sixteen zero n k h = omega arith
digits-length_sixteen (suc fuel) n zero h = ground arith
digits-length_sixteen (suc fuel) n (suc k) h = ground (arith, digits-length_sixteen fuel (n / 16) k)

length-map : (f : ℕ → ℕ) (xs : List ℕ) → length (map f xs) ≡ length xs
length-map f [] = refl
length-map f (x ∷ xs) = ap suc (length-map f xs)

length-reverse : (xs : Bytes) → length (reverse xs) ≡ length xs
length-reverse [] = refl
length-reverse (x ∷ xs) =
    omega
      (arith, ap length (reverse-cons x xs), length-append (reverse xs) (x ∷ []), length-reverse xs)

-- The width that is padded to.
abbrev pub width_of : IndexFormat → ℕ
width_of format = if ltb max_width format.width then max_width else format.width

abbrev pub pad_of : IndexFormat → ℕ
pad_of format = if format.zero_pad then b'0' else b' '

digit_chars-read :
    (format : IndexFormat) (index : ℕ)
    → read_number (radix_of format) 0 (reverse (digit_chars format index)) ≡ index
digit_chars-read format index = by_base format.hex refl
  where
    by_base :
        (hex : Bool)
        → format.hex ≡ hex
        → read_number (radix_of format) 0 (reverse (digit_chars format index)) ≡ index
    by_base true e = rw e (
        read_number-reverse 16 (digits 16 (suc index) index) (omega arith)
          (digits-below_sixteen (suc index) index)
        ∙ value-digits_sixteen (suc index) index (omega arith))
    by_base false e = rw e (
        read_number-reverse 10 (digits 10 (suc index) index) (omega arith)
          (digits-below_ten (suc index) index)
        ∙ value-digits_ten (suc index) index (omega arith))

digit_chars-length :
    (format : IndexFormat) (index : ℕ) → index < 2 ^ 64 → length (digit_chars format index) ≤ 20
digit_chars-length format index h = by_base format.hex refl
  where
    by_base : (hex : Bool) → format.hex ≡ hex → length (digit_chars format index) ≤ 20
    by_base true e = rw e (
        omega (
          arith,
          length-map digit_char (digits 16 (suc index) index),
          digits-length_sixteen (suc index) index 19 (omega arith),
        ))
    by_base false e = rw e (
        omega (
          arith,
          length-map digit_char (digits 10 (suc index) index),
          digits-length_ten (suc index) index 19 (omega arith),
        ))

-- A job's index, formatted into a buffer of `YC_UI_INDEX_BUF_SIZE` bytes, is padding and digits: the
-- digits read back as the index, and the padding brings them to the width asked for, but to 64 at
-- most; an index with more digits is not cut.
pub format_index-read :
    (format : IndexFormat) (index : ℕ)
    → index < 2 ^ 64
    → (n : ℕ) × (shown : Bytes) × (format_index format index index_buf_size
        ≡ replicate n (pad_of format) ++ shown)
      × (read_number (radix_of format) 0 shown ≡ index)
      × (n + length shown
          ≡ (if ltb (length shown) (width_of format) then width_of format else length shown))
unfolding format_index
format_index-read format index h =
    let chars = digit_chars format index in
    let n = pad_length format (length chars) in
    let same = length-reverse chars in
    let few = digit_chars-length format index h in
    (
      n,
      reverse chars,
      take_of_le (index_buf_size - 1) (replicate n (pad_of format) ++ reverse chars) (
          ground (
            arith,
            few,
            same,
            length-append (replicate n (pad_of format)) (reverse chars),
            length-replicate {A = ℕ} n (pad_of format),
          )),
      digit_chars-read format index,
      ground (arith, same),
    )
