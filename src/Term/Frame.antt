-- ===== src/Term/Frame.antt =====
-- A frame that is complete: the rows that changed are sent.
pub mod Terminal
pub mod Repaint
use yapara_c.Prelude.{
  is_same, ℕ, zero, suc, ◌+◌, ◌%◌, ◌^◌, Bool, true, false, not, ◌&&◌, ◌||◌, List, [], ◌∷◌, ◌++◌,
  ltb, leb, ◌==◌, if◌then◌else◌, length, take, drop, get_or,
}
use yapara_c.Digits.{decimal}
use yapara_c.Term.Utf8.{Bytes}
use yapara_c.Term.Rows.{Row, Screen, empty_row}

-- `rows_differ`
unfoldable pub rows_differ : Row → Row → Bool
rows_differ a b =
    if not (length a.bytes == length b.bytes)
    then true
    else if length a.bytes == 0
    then false
    else not (is_same a.bytes b.bytes)

-- What is sent for a row: the move to its start, its bytes, and the clearing of the rest.
unfoldable pub update : ℕ → Bytes → Bytes
update row bytes =
    (27 ∷ b'[' ∷ decimal ((row + 1) % 2 ^ 32))
    ++ (b';' ∷ b'1' ∷ b'H' ∷ bytes)
    ++ (27 ∷ b'[' ∷ b'K' ∷ [])

-- The loop of `yc_term_end_frame` with the rounds left, the row, and both buffers from it on: the
-- rows written, the bytes sent, and the front buffer.
unfoldable pub end_rows : ℕ → ℕ → List Row → List Row → ℕ × Bytes × List Row
end_rows zero row back front = (0, [], front)
end_rows (suc n) row [] front = (0, [], front)
end_rows (suc n) row (b ∷ back) [] = (0, [], [])
end_rows (suc n) row (b ∷ back) (f ∷ front) =
    let (written, out, rest) = end_rows n (row + 1) back front in
    if rows_differ b f
    then (written + 1, update row b.bytes ++ out, b ∷ rest)
    else (written, out, f ∷ rest)

-- `yc_term_end_frame` up to the write.
unfoldable pub end_frame : Screen → Screen
end_frame t =
    let (written, out, front) = end_rows t.height 0 t.back t.front in
    record t { in_frame = false; rows_written = written; out = out; front = front }

-- What a call of `write` returns.
pub data WriteResult : Type 0 where
  wrote : ℕ → WriteResult
  interrupted : WriteResult
  failed : WriteResult

-- The loop of writes: the bytes that reach the terminal. The results of the calls come as a list;
-- where it ends the loop does.
unfoldable pub write_all : List WriteResult → Bytes → Bytes
write_all [] out = []
write_all (wrote n ∷ results) out =
    let rest = write_all results (drop n out) in
    if length out == 0 || n == 0 then [] else take n out ++ rest
write_all (interrupted ∷ results) out =
    let rest = write_all results out in if length out == 0 then [] else rest
write_all (failed ∷ results) out = []

-- The end of `yc_term_end_frame`.
unfoldable pub flush_frame : (headless tty_ready : Bool) → List WriteResult → Screen → Bytes
flush_frame headless tty_ready results t =
    if not headless && tty_ready then write_all results t.out else []

-- `yc_term_frame_row_raw`
unfoldable pub frame_row_raw : ℕ → Screen → Bytes
frame_row_raw row t = if leb t.height row then [] else (get_or t.front row empty_row).bytes
