-- ===== src/Tests/Term.antt =====
-- The theorems on src/yc-term.c at concrete inputs.
use yapara_c.Prelude.{
  ℕ, ◌+◌, ◌≤◌, true, false, List, [], ◌∷◌, ◌++◌, some, ◌≡◌, ◌↔◌, ◌⊎◌, inl, refl, arith, ◌==◌, ◌||◌,
  if◌then◌else◌, length,
}
use yapara_c.Prelude.Loop.{ok}
use yapara_c.Term.Utf8.{Bytes, utf8_decode, codepoint_columns, zero_width_ranges, wide_ranges}
use yapara_c.Term.Utf8.Encode.{encode, IsAccepted, utf8_decode_iff}
use yapara_c.Term.Utf8.Ranges.{is_member, codepoint_columns-is_member}
use yapara_c.Term.Rows.{Screen, row_puts, row_at, put_row}
use yapara_c.Term.Rows.Clip.{Draws, row_puts_lem}
use yapara_c.Term.Rows.Safe.{AreSafe, row_puts-AreSafe}
use yapara_c.Term.Frame.{end_frame}
use yapara_c.Term.Frame.Repaint.{Command, render, texts, AllChange, end_frame-Repaints}
use yapara_c.Term.Frame.Terminal.{between, replay}
use yapara_c.Term.Keys.{Key, up, escape, special, char, Input, feed_input}
use yapara_c.Term.Keys.Sequences.{
  text, up_key, SendsAll, nothing, more, escape_and, feed_input-SendsAll,
}

-- The euro sign, and a letter behind it.
abbrev euro_text : Bytes
euro_text = 0xe2 ∷ 0x82 ∷ 0xac ∷ b'x' ∷ []

utf8_decode_iff_example : (utf8_decode euro_text ≡ some (0x20ac, 3)) ↔ (
    IsAccepted 0x20ac
    × (3 ≡ length (encode 0x20ac))
    × ((rest : Bytes) × (euro_text ≡ encode 0x20ac ++ rest)))
utf8_decode_iff_example = utf8_decode_iff euro_text 0x20ac 3

-- A wide character.
codepoint_columns-is_member_example : codepoint_columns 0x4e00 ≡ (
    if 0x4e00 == 0 || is_member 0x4e00 zero_width_ranges
    then 0
    else if is_member 0x4e00 wide_ranges
    then 2
    else 1)
codepoint_columns-is_member_example = codepoint_columns-is_member 0x4e00

-- One row of three columns, of which one is taken; the other row is the same in both buffers.
abbrev narrow_screen : Screen
narrow_screen = record {
  width = 3;
  height = 2;
  back = record { bytes = b'A' ∷ []; cols = 1 } ∷ record { bytes = b'B' ∷ []; cols = 1 } ∷ [];
  front = record { bytes = b'C' ∷ []; cols = 1 } ∷ record { bytes = b'B' ∷ []; cols = 1 } ∷ [];
  current_row = 0;
  in_frame = true;
  rows_written = 0;
  out = [];
}

-- A letter of two bytes, an ESC, and a letter that has no room.
abbrev long_text : Bytes
long_text = 195 ∷ 169 ∷ 27 ∷ b'z' ∷ []

row_puts_lem_example :
    (rest : Bytes) × (new : Bytes) × (n : ℕ) × (row_puts long_text narrow_screen
      ≡ ok (put_row narrow_screen (record { bytes = b'A' ∷ new; cols = 1 + n })))
    × Draws long_text rest new n
    × (1 + n ≤ 3)
    × ((rest ≡ []) ⊎ (3 ≤ 1 + n + 1))
row_puts_lem_example =
    row_puts_lem long_text narrow_screen (omega arith) (omega arith) (omega arith)

row_puts-AreSafe_example :
    (t' : Screen) × (new : Bytes) × (row_puts long_text narrow_screen ≡ ok t')
    × ((row_at t').bytes ≡ b'A' ∷ new)
    × AreSafe new
row_puts-AreSafe_example =
    row_puts-AreSafe long_text narrow_screen (omega arith) (omega arith) (omega arith) (omega arith)

end_frame-Repaints_example :
    (commands : List Command) × ((end_frame narrow_screen).out ≡ render commands)
    × ((end_frame narrow_screen).rows_written ≡ length commands)
    × AllChange commands ((b'C' ∷ []) ∷ (b'B' ∷ []) ∷ [])
    × (replay
          (end_frame narrow_screen).out
          (record { phase = between; rows = (b'C' ∷ []) ∷ (b'B' ∷ []) ∷ [] })
        ≡ record { phase = between; rows = (b'A' ∷ []) ∷ (b'B' ∷ []) ∷ [] })
    × (texts 2 (end_frame narrow_screen).front ≡ (b'A' ∷ []) ∷ (b'B' ∷ []) ∷ [])
end_frame-Repaints_example =
    end_frame-Repaints narrow_screen (record { back = omega arith; front = omega arith })
      (omega arith) (refl, (refl, tt))

-- The beginning of an arrow key.
abbrev half_key : Input
half_key = record { pending = 27 ∷ b'[' ∷ []; keys = [] }

-- An arrow key, the ESC key and a letter.
abbrev typed_keys : List Key
typed_keys = special up ∷ special escape ∷ record { type = char; ch = b'q'; ctrl = false } ∷ []

abbrev typed_bytes : Bytes
typed_bytes = 27 ∷ b'[' ∷ b'A' ∷ 27 ∷ b'q' ∷ []

typed_keys-SendsAll : SendsAll typed_keys typed_bytes
typed_keys-SendsAll =
    more (up_key b'[' (inl refl))
      (escape_and (text b'q' (omega arith) (omega arith)) (omega arith) (omega arith) nothing)

feed_input-SendsAll_example :
    feed_input typed_bytes (record { pending = []; keys = [] })
    ≡ ok (record { pending = []; keys = typed_keys })
feed_input-SendsAll_example = feed_input-SendsAll [] typed_keys-SendsAll
