-- ===== src/Term/Frame/Terminal.antt =====
-- A terminal that reads the bytes of `yc_term_end_frame` one by one: `ESC [ row ; 1 H` begins a
-- row, and `ESC [ K` ends it.
use mathlib.Core.List.{reverse, reverse-cons}
use yapara_c.Prelude.{
  ℕ, zero, suc, ◌+◌, ◌-◌, ◌*◌, ◌/◌, ◌%◌, ◌^◌, ◌<◌, Bool, true, false, ◌&&◌, ◌||◌, List, [], ◌∷◌,
  ◌++◌, map, ◌≡◌, refl, ap, sym, ◌∙◌, arith, append_assoc, append-nil, leb, ◌==◌, if◌then◌else◌,
  set, Bool-cases, inl, inr,
}
use yapara_c.Digits.{digits, decimal}
use yapara_c.Digits.Value.{value, AreDigits, value-digits_ten}
use yapara_c.Term.Utf8.{Bytes}
use yapara_c.Term.Frame.{update}

-- What the terminal is at: between sequences; behind an ESC; in the row or the column of a move;
-- or in the text of a row, as much as was read of it.
pub data Phase : Type 0 where
  between opened : Phase
  row_number : (row : ℕ) → Phase
  column_number : (row column : ℕ) → Phase
  row_text : (row : ℕ) (line : Bytes) → Phase

pub record Terminal : Type 0 where
  pub phase : Phase
  pub rows : List Bytes

-- Whether a text ends in `ESC [`, and what stands before its last two bytes.
abbrev pub ends_csi : Bytes → Bool
ends_csi [] = false
ends_csi (a ∷ []) = false
ends_csi (a ∷ b ∷ []) = a == 27 && b == b'['
ends_csi (a ∷ b ∷ c ∷ line) = ends_csi (b ∷ c ∷ line)

abbrev pub but_two : Bytes → Bytes
but_two [] = []
but_two (a ∷ []) = []
but_two (a ∷ b ∷ []) = []
but_two (a ∷ b ∷ c ∷ line) = a ∷ but_two (b ∷ c ∷ line)

abbrev pub is_decimal : ℕ → Bool
is_decimal c = leb b'0' c && leb c b'9'

-- One byte. Rows and columns count from 1 in a move; a text ends where `ESC [ K` does, and is then
-- what its row shows.
abbrev pub receive : Phase → ℕ → List Bytes → Terminal
receive between c rows = record { phase = if c == 27 then opened else between; rows = rows }
receive opened c rows = record { phase = if c == b'[' then row_number 0 else between; rows = rows }
receive (row_number row) c rows = record {
  phase =
      if is_decimal c
      then row_number (row * 10 + (c - b'0'))
      else if c == b';'
      then column_number row 0
      else between;
  rows = rows;
}
receive (column_number row column) c rows = record {
  phase =
      if is_decimal c
      then column_number row (column * 10 + (c - b'0'))
      else if c == b'H' && column == 1
      then row_text (row - 1) []
      else between;
  rows = rows;
}
receive (row_text row line) c rows =
    if c == b'K' && ends_csi line
    then record { phase = between; rows = set rows row (but_two line) }
    else record { phase = row_text row (line ++ c ∷ []); rows = rows }

abbrev pub replay : Bytes → Terminal → Terminal
replay [] t = t
replay (c ∷ out) t = replay out (receive t.phase c t.rows)

-- Whether `ESC [ K` stands in a text.
abbrev pub is_erase : Bytes → Bool
is_erase (a ∷ b ∷ c ∷ line) = a == 27 && b == b'[' && c == b'K'
is_erase _ = false

abbrev pub has_erase : Bytes → Bool
has_erase [] = false
has_erase (c ∷ line) = is_erase (c ∷ line) || has_erase line

pub replay-append : (a b : Bytes) (t : Terminal) → replay (a ++ b) t ≡ replay b (replay a t)
replay-append [] b t = refl
replay-append (c ∷ a) b t = replay-append a b (receive t.phase c t.rows)

-- Digits from the first one on.
abbrev number : ℕ → List ℕ → ℕ
number acc [] = acc
number acc (d ∷ ds) = number (acc * 10 + d) ds

number-append : (acc : ℕ) (a b : List ℕ) → number acc (a ++ b) ≡ number (number acc a) b
number-append acc [] b = refl
number-append acc (d ∷ a) b = number-append (acc * 10 + d) a b

number-reverse : (ds : List ℕ) → number 0 (reverse ds) ≡ value 10 ds
number-reverse [] = refl
number-reverse (d ∷ ds) =
    ap (number 0) (reverse-cons d ds)
    ∙ number-append 0 (reverse ds) (d ∷ [])
    ∙ omega (arith, number-reverse ds)

append-AreDigits : (a b : List ℕ) → AreDigits 10 a → AreDigits 10 b → AreDigits 10 (a ++ b)
append-AreDigits [] b h k = k
append-AreDigits (d ∷ a) b h k = (h.0, append-AreDigits a b h.1 k)

reverse-AreDigits : (ds : List ℕ) → AreDigits 10 ds → AreDigits 10 (reverse ds)
reverse-AreDigits [] h = tt
reverse-AreDigits (d ∷ ds) h =
    rw (reverse-cons d ds)
      (append-AreDigits (reverse ds) (d ∷ []) (reverse-AreDigits ds h.1) (h.0, tt))

digits-AreDigits : (fuel n : ℕ) → AreDigits 10 (digits 10 fuel n)
unfolding digits
digits-AreDigits zero n = tt
digits-AreDigits (suc fuel) n = ground (arith, digits-AreDigits fuel (n / 10))

receive_digit :
    (acc d : ℕ) (rows : List Bytes)
    → d < 10
    → receive (row_number acc) (b'0' + d) rows
      ≡ record { phase = row_number (acc * 10 + d); rows = rows }
receive_digit acc d rows h = ground arith

replay-row_number :
    (ds : List ℕ) (acc : ℕ) (rows : List Bytes)
    → AreDigits 10 ds
    → replay (map (λ d. b'0' + d) ds) (record { phase = row_number acc; rows = rows })
      ≡ record { phase = row_number (number acc ds); rows = rows }
replay-row_number [] acc rows h = refl
replay-row_number (d ∷ ds) acc rows h =
    ap (replay (map (λ d. b'0' + d) ds)) (receive_digit acc d rows h.0)
    ∙ replay-row_number ds (acc * 10 + d) rows h.1

replay-decimal :
    (n : ℕ) (rows : List Bytes)
    → replay (decimal n) (record { phase = row_number 0; rows = rows })
      ≡ record { phase = row_number n; rows = rows }
unfolding decimal
replay-decimal n rows =
    replay-row_number (reverse (digits 10 (suc n) n)) 0 rows
      (reverse-AreDigits (digits 10 (suc n) n) (digits-AreDigits (suc n) n))
    ∙ ap (λ row. record { phase = row_number row; rows = rows })
        (number-reverse (digits 10 (suc n) n) ∙ value-digits_ten (suc n) n (omega arith))

ends_csi-has_erase :
    (line rest : Bytes) → ends_csi line ≡ true → has_erase (line ++ b'K' ∷ rest) ≡ true
ends_csi-has_erase [] rest h = cc
ends_csi-has_erase (a ∷ []) rest h = cc
ends_csi-has_erase (a ∷ b ∷ []) rest h = ground arith
ends_csi-has_erase (a ∷ b ∷ c ∷ line) rest h =
    ground (arith, ends_csi-has_erase (b ∷ c ∷ line) rest h)

ends_csi-append : (line : Bytes) → ends_csi (line ++ 27 ∷ b'[' ∷ []) ≡ true
ends_csi-append [] = refl
ends_csi-append (a ∷ []) = refl
ends_csi-append (a ∷ b ∷ []) = refl
ends_csi-append (a ∷ b ∷ c ∷ line) = ends_csi-append (b ∷ c ∷ line)

but_two-append : (line : Bytes) → but_two (line ++ 27 ∷ b'[' ∷ []) ≡ line
but_two-append [] = refl
but_two-append (a ∷ []) = refl
but_two-append (a ∷ b ∷ []) = refl
but_two-append (a ∷ b ∷ c ∷ line) = ap (◌∷◌ a) (but_two-append (b ∷ c ∷ line))

has_erase-goes_on :
    (line : Bytes) (c : ℕ) (rest : Bytes)
    → has_erase (line ++ c ∷ rest) ≡ false
    → (c == b'K' && ends_csi line) ≡ false
has_erase-goes_on line c rest h = elim (Bool-cases (c == b'K' && ends_csi line)) [
  | inl over ↦
      let k : c ≡ b'K' = ground arith in
      let found = ends_csi-has_erase line rest (ground arith) in
      let here : has_erase (line ++ c ∷ rest) ≡ true =
        ap (λ d. has_erase (line ++ d ∷ rest)) k ∙ found in
      cc
  | inr going ↦ going
]

-- A text without `ESC [ K` is read as it is.
replay-row_text :
    (row : ℕ) (line bytes : Bytes) (rows : List Bytes)
    → has_erase (line ++ bytes) ≡ false
    → replay bytes (record { phase = row_text row line; rows = rows })
      ≡ record { phase = row_text row (line ++ bytes); rows = rows }
replay-row_text row line [] rows h =
    ap (λ l. record { phase = row_text row l; rows = rows }) (sym (append-nil line))
replay-row_text row line (c ∷ bytes) rows h =
    let goes_on = has_erase-goes_on line c bytes h in
    let one : (line ++ c ∷ []) ++ bytes ≡ line ++ c ∷ bytes = append_assoc line (c ∷ []) bytes in
    rw goes_on (
      replay-row_text row (line ++ c ∷ []) bytes rows (ap has_erase one ∙ h)
      ∙ ap (λ l. record { phase = row_text row l; rows = rows }) one)

replay-erase :
    (row : ℕ) (bytes : Bytes) (rows : List Bytes)
    → replay (27 ∷ b'[' ∷ b'K' ∷ []) (record { phase = row_text row bytes; rows = rows })
      ≡ record { phase = between; rows = set rows row bytes }
replay-erase row bytes rows =
    let line = (bytes ++ 27 ∷ []) ++ b'[' ∷ [] in
    let whole : line ≡ bytes ++ 27 ∷ b'[' ∷ [] = append_assoc bytes (27 ∷ []) (b'[' ∷ []) in
    ap (λ l. receive (row_text row l) b'K' rows) whole
    ∙ rw (ends_csi-append bytes, but_two-append bytes) refl

-- What is sent for a row makes it show the bytes.
pub replay-update :
    (row : ℕ) (bytes : Bytes) (rows : List Bytes)
    → row + 1 < 2 ^ 32
    → has_erase bytes ≡ false
    → replay (update row bytes) (record { phase = between; rows = rows })
      ≡ record { phase = between; rows = set rows row bytes }
unfolding update
replay-update row bytes rows small plain =
    let at_row : Terminal = record { phase = row_number 0; rows = rows } in
    let in_text : Terminal = record { phase = row_text row []; rows = rows } in
    let number_fits : (row + 1) % 2 ^ 32 ≡ row + 1 = omega arith in
    let back : row + 1 - 1 ≡ row = omega arith in
    let erase : Bytes = 27 ∷ b'[' ∷ b'K' ∷ [] in
    let moves : Bytes = b';' ∷ b'1' ∷ b'H' ∷ bytes in
    ap (λ n. replay ((decimal n ++ moves) ++ erase) at_row) number_fits
    ∙ replay-append (decimal (row + 1) ++ moves) erase at_row
    ∙ ap (replay erase) (
        replay-append (decimal (row + 1)) moves at_row
        ∙ ap (replay moves) (replay-decimal (row + 1) rows)
        ∙ ap (λ r. replay bytes (record in_text { phase = row_text r [] })) back
        ∙ replay-row_text row [] bytes rows plain)
    ∙ replay-erase row bytes rows
