-- ===== src/Term/Rows.antt =====
-- Rows of a frame, and the calls that build one from left to right.
-- `len` is the length of the bytes. A row with no storage yet has no bytes either.
pub mod Clip
pub mod Safe
use yapara_c.Prelude.{
  ℕ, zero, suc, ◌+◌, ◌-◌, ◌%◌, ◌^◌, min, Bool, true, false, not, ◌&&◌, ◌||◌, List, [], ◌∷◌, ◌++◌,
  Option, none, some, ltb, leb, ◌==◌, if◌then◌else◌, length, take, drop, replicate, get_or, set,
}
use yapara_c.Prelude.Loop.{Flow, again, stop, Result, ok, ◌>>=◌, run}
use yapara_c.Term.Utf8.{Bytes, utf8_decode, codepoint_columns}

-- `Row`
pub record Row : Type 0 where
  pub bytes : Bytes
  pub cols : ℕ

abbrev pub empty_row : Row
empty_row = record { bytes = []; cols = 0 }

-- The fields of `YcTerm` for frames. `back` and `front` have `n_rows_alloced` rows.
pub record Screen : Type 0 where
  pub width : ℕ
  pub height : ℕ
  pub back : List Row
  pub front : List Row
  pub current_row : ℕ
  pub in_frame : Bool
  pub rows_written : ℕ
  pub out : Bytes

abbrev pub default_width : ℕ
default_width = 80

abbrev pub default_height : ℕ
default_height = 24

-- `rows_resize`
unfoldable pub rows_resize : ℕ → Screen → Screen
rows_resize height t = if leb height (length t.back) then t else record t {
  back = t.back ++ replicate (height - length t.back) empty_row;
  front = t.front ++ replicate (height - length t.front) empty_row;
}

-- `row_reset` of the first `n` rows.
unfoldable pub reset_rows : ℕ → List Row → List Row
reset_rows zero rows = rows
reset_rows (suc n) [] = []
reset_rows (suc n) (row ∷ rows) = empty_row ∷ reset_rows n rows

-- `yc_term_set_size`
unfoldable pub set_size : ℕ → ℕ → Screen → Screen
set_size width height t =
    let w = if width == 0 then default_width else width in
    let h = if height == 0 then default_height else height in
    let resized = rows_resize h (record t { width = w; height = h }) in
    if w == t.width && h == t.height
    then t
    else record resized { front = reset_rows (length resized.front) resized.front }

-- `yc_term_new_headless`
unfoldable pub new_headless : ℕ → ℕ → Screen
new_headless width height = set_size width height (
    rows_resize default_height (record {
      width = default_width;
      height = default_height;
      back = [];
      front = [];
      current_row = 0;
      in_frame = false;
      rows_written = 0;
      out = [];
    }))

-- `yc_term_begin_frame`
unfoldable pub begin_frame : Screen → Screen
begin_frame t = record t { back = reset_rows t.height t.back; in_frame = true; current_row = 0 }

-- `yc_term_row_begin`
unfoldable pub row_begin : ℕ → Screen → Screen
row_begin row t =
    if ltb row t.height
    then record t { current_row = row; back = set t.back row empty_row }
    else record t { current_row = row }

-- The row that is being built, and the screen with another in its place.
abbrev pub row_at : Screen → Row
row_at t = get_or t.back t.current_row empty_row

abbrev pub put_row : Screen → Row → Screen
put_row t row = record t { back = set t.back t.current_row row }

-- `yc_term_row_attr`; an absent string is an empty one here.
unfoldable pub row_attr : Bytes → Screen → Screen
row_attr [] t = t
row_attr (c ∷ sgr) t =
    if leb t.height t.current_row
    then t
    else put_row t (record (row_at t) { bytes = (row_at t).bytes ++ c ∷ sgr })

-- The variables of the loop of `yc_term_row_puts`: the text from `i` on, and the row.
pub record PutsState : Type 0 where
  pub text : Bytes
  pub row : Row

-- `row->cols + n` of `unsigned`
abbrev pub add_cols : ℕ → ℕ → ℕ
add_cols cols n = (cols + n) % 2 ^ 32

-- A byte sequence that is not shown as it is becomes a question mark.
abbrev pub put_mark : ℕ → PutsState → PutsState
put_mark n s = record {
  text = drop n s.text;
  row = record { bytes = s.row.bytes ++ b'?' ∷ []; cols = add_cols s.row.cols 1 };
}

unfoldable pub put_char : ℕ → Option (ℕ × ℕ) → PutsState → Flow (Unit {0}) PutsState
put_char width none s = again (put_mark 1 s)
put_char width (some (cp, n)) s =
    let cols = codepoint_columns cp in
    if ltb cp 0x20 || cp == 0x7f
    then again (put_mark n s)
    else if ltb width (add_cols s.row.cols cols)
    then stop s
    else again (record {
      text = drop n s.text;
      row = record { bytes = s.row.bytes ++ take n s.text; cols = add_cols s.row.cols cols };
    })

-- One round of the loop.
unfoldable pub puts_step : ℕ → PutsState → Flow (Unit {0}) PutsState
puts_step width s =
    if ltb 0 (length s.text) && ltb s.row.cols width
    then put_char width (utf8_decode s.text) s
    else stop s

-- `yc_term_row_puts`
unfoldable pub row_puts : Bytes → Screen → Result (Unit {0}) Screen
row_puts [] t = ok t
row_puts (c ∷ text) t =
    let puts =
      run (λ s. length s.text) (puts_step t.width) (record { text = c ∷ text; row = row_at t }) in
    if leb t.height t.current_row then ok t else do s ← puts; ok (put_row t s.row)

-- `yc_term_row_pad`: the spaces up to a column.
unfoldable pub row_pad : ℕ → Screen → Screen
row_pad to_col t =
    let n = min to_col t.width - (row_at t).cols in
    if leb t.height t.current_row
    then t
    else put_row t
        (record { bytes = (row_at t).bytes ++ replicate n b' '; cols = (row_at t).cols + n })

-- `YC_TERM_RESET`
abbrev pub sgr_reset : Bytes
sgr_reset = 27 ∷ b'[' ∷ b'0' ∷ b'm' ∷ []

-- `yc_term_row_end`
unfoldable pub row_end : Screen → Screen
row_end = row_attr sgr_reset
