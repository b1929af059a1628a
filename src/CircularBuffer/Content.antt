-- ===== src/CircularBuffer/Content.antt =====
-- The lines that a circular buffer holds, oldest first.
use yapara_c.Prelude.{
  ℕ, suc, ◌+◌, ◌^◌, ◌≤◌, ◌<◌, Bool, List, [], ◌∷◌, ◌≡◌, ap, ◌∙◌, arith, get_or, take, length,
}
use yapara_c.CircularBuffer.{Bytes, CircularBuffer, line_at, slot_back, next_start}
use yapara_c.CircularBuffer.Layout.{back, window}

-- A line as it was added: the bytes kept, whether some were cut, and the user's data.
pub record Entry : Type 0 where
  pub bytes : Bytes
  pub truncated : Bool
  pub user_data : Bytes

-- All bytes of the lines.
abbrev pub total : List Entry → ℕ
total [] = 0
total (l ∷ ls) = length l.bytes + total ls

-- The slot of a line, and where it starts, from the lines that are newer.
abbrev pub slot_of : CircularBuffer → List Entry → ℕ
slot_of r ls = back r.max_lines r.write_line_index (length ls)

abbrev pub start_of : CircularBuffer → List Entry → ℕ
start_of r ls = back r.buffer_size r.write_pos (total ls)

-- Slot and text of the oldest of the lines.
pub record IsStored (r : CircularBuffer) (l : Entry) (slot start : ℕ) : Type 0 where
  pub info : line_at r slot ≡ record { is_truncated = l.truncated; line_start = start }
  pub data_at : take r.line_data_size (get_or r.line_data slot []) ≡ l.user_data
  pub text : window r.buffer_size r.buf start (length l.bytes) ≡ l.bytes
  pub short : length l.bytes < r.buffer_size

abbrev pub AllStored : CircularBuffer → List Entry → Type 0
AllStored r [] = Unit
AllStored r (l ∷ ls) = IsStored r l (slot_of r (l ∷ ls)) (start_of r (l ∷ ls)) × AllStored r ls

-- The sizes fit together. The bound on a line is below the size of the storage.
pub record IsSized (r : CircularBuffer) : Type 0 where
  pub storage : length r.buf ≡ r.buffer_size
  pub slots : length r.lines ≡ r.max_lines
  pub data_slots : length r.line_data ≡ r.max_lines
  pub position : r.write_pos < r.buffer_size
  pub index : r.write_line_index < r.max_lines
  pub small : r.buffer_size ≤ 2 ^ 31
  pub few : r.max_lines ≤ 2 ^ 31
  pub short : r.max_line_length < r.buffer_size

-- The buffer `r` holds the lines `ls`.
pub record Holds (r : CircularBuffer) (ls : List Entry) : Type 0 where
  pub sized : IsSized r
  pub counted : r.num_lines ≡ length ls
  pub few : length ls ≤ r.max_lines
  pub occupied : r.buf_occupancy ≡ total ls
  pub fits : total ls ≤ r.buffer_size
  pub stored : AllStored r ls

pub slot_back-back :
    (r : CircularBuffer) (n : ℕ)
    → IsSized r
    → 0 < n
    → n ≤ r.max_lines
    → slot_back r n ≡ back r.max_lines r.write_line_index n
unfolding slot_back
slot_back-back r n s pos h = ground arith

-- The slot behind that of a line is that of the next newer one.
pub next_start-line_at :
    (r : CircularBuffer) (n : ℕ)
    → IsSized r
    → 0 < n
    → suc n ≤ r.max_lines
    → next_start r (back r.max_lines r.write_line_index (suc n))
      ≡ (line_at r (back r.max_lines r.write_line_index n)).line_start
unfolding next_start
next_start-line_at r n s pos h = ground arith

-- Where the oldest line ends: at `write_pos` if it is the only one, or where the next starts.
abbrev pub end_of : CircularBuffer → List Entry → ℕ
end_of r [] = r.write_pos
end_of r (k ∷ ls) = next_start r (slot_of r (k ∷ k ∷ ls))

pub end_of-start_of :
    (r : CircularBuffer) (ls : List Entry)
    → IsSized r
    → suc (length ls) ≤ r.max_lines
    → AllStored r ls
    → end_of r ls ≡ start_of r ls
end_of-start_of r [] s h a = ground arith
end_of-start_of r (k ∷ ls) s h a =
    next_start-line_at r (suc (length ls)) s (omega arith) h ∙ ap (λ i. i.line_start) a.0.info
