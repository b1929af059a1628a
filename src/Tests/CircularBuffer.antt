-- ===== src/Tests/CircularBuffer.antt =====
-- The theorems on src/yc-circular-buffer.c at a concrete buffer.
use yapara_c.Prelude.{
  ℕ, ◌-◌, true, false, List, [], ◌∷◌, ◌++◌, none, some, ◌≡◌, refl, arith, length, replicate,
}
use yapara_c.Prelude.Loop.{ok}
use yapara_c.CircularBuffer.{
  CircularBuffer, NewOptions, Storage, Line, new, add, get_line, kept_length, back_to_initial,
  is_utf8_initial_char,
}
use yapara_c.CircularBuffer.Refine.{IsAllocated}
use yapara_c.CircularBuffer.Content.{Entry, Holds}
use yapara_c.CircularBuffer.Room.{lines_kept}
use yapara_c.CircularBuffer.Refine.{IsCut, line_of, back_to_initial-IsCut, add-Holds}
use yapara_c.CircularBuffer.Reach.{Reachable, created, Reachable-add, Reachable-Holds}
use yapara_c.CircularBuffer.Get.{get_line-Holds}

abbrev older_line : Entry
older_line = record { bytes = 1 ∷ 2 ∷ 3 ∷ []; truncated = false; user_data = 7 ∷ [] }

abbrev newer_line : Entry
newer_line = record { bytes = 4 ∷ 5 ∷ 6 ∷ []; truncated = true; user_data = 8 ∷ [] }

-- The newer line goes round the end of the storage.
abbrev two_lines : CircularBuffer
two_lines = record {
  buffer_size = 8;
  buf = 5 ∷ 6 ∷ 0 ∷ 0 ∷ 1 ∷ 2 ∷ 3 ∷ 4 ∷ [];
  write_pos = 2;
  max_lines = 3;
  max_line_length = 4;
  write_line_index = 1;
  lines =
      record { is_truncated = true; line_start = 7 }
      ∷ record { is_truncated = false; line_start = 0 }
      ∷ record { is_truncated = false; line_start = 4 }
      ∷ [];
  line_data = (8 ∷ []) ∷ (0 ∷ []) ∷ (7 ∷ []) ∷ [];
  buf_occupancy = 6;
  num_lines = 2;
  line_data_size = 1;
  utf8_sensitive_truncation = true;
}

two_lines-Holds : Holds two_lines (older_line ∷ newer_line ∷ [])
two_lines-Holds = record {
  sized = record {
    storage = refl;
    slots = refl;
    data_slots = refl;
    position = omega arith;
    index = omega arith;
    small = omega arith;
    few = omega arith;
    short = omega arith;
  };
  counted = refl;
  few = omega arith;
  occupied = refl;
  fits = omega arith;
  stored = (
    record { info = refl; data_at = refl; text = refl; short = omega arith },
    (record { info = refl; data_at = refl; text = refl; short = omega arith }, tt),
  );
}

-- A text of six bytes, whose fifth byte is inside a character that begins at the third.
abbrev long_text : List ℕ
long_text = 65 ∷ 66 ∷ 67 ∷ 195 ∷ 169 ∷ 68 ∷ []

-- The oldest line gives way to the first three bytes.
two_lines-kept : kept_length two_lines long_text ≡ 3
unfolding kept_length back_to_initial is_utf8_initial_char
two_lines-kept = refl

add-Holds_example :
    (r' : CircularBuffer) × (add two_lines long_text none
      ≡ ok (
        2
            - length
                (lines_kept 8 3 (kept_length two_lines long_text) (older_line ∷ newer_line ∷ [])),
        r',
      ))
    × Holds r' (
        lines_kept 8 3 (kept_length two_lines long_text) (older_line ∷ newer_line ∷ [])
        ++ line_of two_lines long_text none ∷ [])
add-Holds_example =
    add-Holds two_lines long_text none (older_line ∷ newer_line ∷ []) two_lines-Holds

get_line-Holds_example :
    (line : Line) × (get_line two_lines 0 ≡ some line)
    × (line.first_part ++ line.second_part ≡ 4 ∷ 5 ∷ 6 ∷ [])
    × (line.truncated ≡ true)
    × (line.line_data ≡ 8 ∷ [])
get_line-Holds_example = get_line-Holds two_lines (older_line ∷ []) [] newer_line two_lines-Holds

back_to_initial-IsCut_example : IsCut long_text 4 (back_to_initial long_text 4)
back_to_initial-IsCut_example = back_to_initial-IsCut long_text 4

abbrev small_options : NewOptions
small_options = record {
  buffer_size = 8;
  max_line_length = 4;
  max_lines = 1;
  line_data_size = 0;
  utf8_sensitive_truncation = true;
}

abbrev small_storage : Storage
small_storage = record {
  buf = replicate 8 99;
  lines = record { is_truncated = true; line_start = 5 } ∷ [];
  line_data = [] ∷ [];
}

small_options-IsAllocated : IsAllocated small_options small_storage
small_options-IsAllocated = record {
  bytes = refl;
  slots = refl;
  data_slots = refl;
  small = omega arith;
  few = omega arith;
  some_slot = omega arith;
  short = omega arith;
}

abbrev small_ring : CircularBuffer
small_ring = record {
  buffer_size = 8;
  buf = replicate 8 99;
  write_pos = 0;
  max_lines = 1;
  max_line_length = 4;
  write_line_index = 0;
  lines = record { is_truncated = true; line_start = 5 } ∷ [];
  line_data = [] ∷ [];
  buf_occupancy = 0;
  num_lines = 0;
  line_data_size = 0;
  utf8_sensitive_truncation = true;
}

small_ring-new : new small_options small_storage ≡ some small_ring
unfolding new
small_ring-new = refl

Reachable-add_example :
    (n_evicted : ℕ) × (r' : CircularBuffer) × (add small_ring long_text none ≡ ok (n_evicted, r'))
    × Reachable small_options small_storage (line_of small_ring long_text none ∷ []) r'
Reachable-add_example =
    Reachable-add small_options small_storage small_options-IsAllocated long_text none
      (created small_ring-new)

-- A buffer after one line.
one_line :
    (n_evicted : ℕ) × (r' : CircularBuffer) × (add small_ring long_text none ≡ ok (n_evicted, r'))
    × Reachable small_options small_storage (line_of small_ring long_text none ∷ []) r'
one_line =
    Reachable-add small_options small_storage small_options-IsAllocated long_text none
      (created small_ring-new)

Reachable-Holds_example :
    (older : List Entry) × (last : List Entry) × (older ++ last
      ≡ line_of small_ring long_text none ∷ [])
    × Holds one_line.1 last
Reachable-Holds_example =
    Reachable-Holds small_options small_storage small_options-IsAllocated one_line.3
