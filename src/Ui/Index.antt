-- ===== src/Ui/Index.antt =====
-- The index of a job in digits, padded.
pub mod Format
use mathlib.Core.List.{reverse}
use yapara_c.Prelude.{
  ℕ, zero, suc, ◌+◌, ◌-◌, Bool, true, false, List, [], ◌∷◌, ◌++◌, map, ltb, leb, ◌==◌,
  if◌then◌else◌, length, take, replicate,
}
use yapara_c.Digits.{digits}
use yapara_c.Ui.Options.{Bytes, IndexFormat, Options}

-- `YC_UI_INDEX_MAX_WIDTH` and `YC_UI_INDEX_BUF_SIZE`
abbrev pub max_width : ℕ
max_width = 64

abbrev pub index_buf_size : ℕ
index_buf_size = 72

abbrev pub radix_of : IndexFormat → ℕ
radix_of format = if format.hex then 16 else 10

-- `digit_chars`
abbrev pub digit_char : ℕ → ℕ
digit_char d = if ltb d 10 then b'0' + d else b'a' + (d - 10)

-- The digits, the last one first, as the loop puts them into `digits`.
abbrev pub digit_chars : IndexFormat → ℕ → Bytes
digit_chars format index = map digit_char (digits (radix_of format) (suc index) index)

-- `n_pad`
abbrev pub pad_length : IndexFormat → ℕ → ℕ
pad_length format n_digits =
    let width = if ltb max_width format.width then max_width else format.width in
    if ltb n_digits width then width - n_digits else 0

-- `format_index`. Each of its two loops ends early where one byte is left, for the NUL.
unfoldable pub format_index : IndexFormat → ℕ → ℕ → Bytes
format_index format index buf_size =
    let chars = digit_chars format index in
    let pad = if format.zero_pad then b'0' else b' ' in
    take (buf_size - 1) (replicate (pad_length format (length chars)) pad ++ reverse chars)

-- `yc_ui_format_index`
unfoldable pub ui_format_index : Options → ℕ → ℕ → Bytes
ui_format_index o = format_index o.index_format

-- `yc_ui_format_index_for_filename`
unfoldable pub format_index_for_filename : Options → ℕ → ℕ → Bytes
format_index_for_filename o = format_index (record (o.index_format) { zero_pad = true })
