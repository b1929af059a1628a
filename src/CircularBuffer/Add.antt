-- ===== src/CircularBuffer/Add.antt =====
-- The buffer once `yc_circular_buffer_add` has put a line behind the others.
use yapara_c.Prelude.{
  get_or-set_same, get_or-set_other, ℕ, ◌+◌, ◌%◌, ◌^◌, ◌≤◌, ◌<◌, Bool, List, [], ◌∷◌, ◌++◌, Option,
  ◌≡◌, ◌≢◌, inl, inr, ap, sym, ◌∙◌, subst, arith, ltb, ◌==◌, if◌then◌else◌, set, take, length,
  length-set, length-append, Bool-cases,
}
use yapara_c.CircularBuffer.{
  Bytes, LineInfo, CircularBuffer, add32, data_slot, add_record, write_text, add_line,
}
use yapara_c.CircularBuffer.Layout.{back, fwd, back-zero, back-fwd}
use yapara_c.CircularBuffer.Write.{
  HasRoom, length-write_text, write_text-write_pos, window-write_text_old, window-write_text_new,
}
use yapara_c.CircularBuffer.Content.{Entry, total, slot_of, start_of, IsStored, AllStored, Holds}
use yapara_c.CircularBuffer.Slots.{take-data_slot, take-no_data, write_text-fields, total-append}

-- The entry of a line that is added.
abbrev pub new_entry : CircularBuffer → Bytes → Bool → Option Bytes → Entry
new_entry r kept truncated given = record {
  bytes = kept;
  truncated = truncated;
  user_data = data_slot r given;
}

-- The buffer behind the line, with its positions moved on round their rings.
abbrev placed :
    CircularBuffer
    → Bytes
    → Bool
    → Option Bytes
    → (pos occupancy num index : ℕ) → LineInfo
    → CircularBuffer
placed r kept truncated given pos occupancy num index info = record r {
  buf = (write_text (add_record r truncated given) kept).buf;
  write_pos = pos;
  write_line_index = index;
  lines = set r.lines r.write_line_index info;
  line_data =
      if ltb 0 r.line_data_size
      then set r.line_data r.write_line_index (data_slot r given)
      else r.line_data;
  buf_occupancy = occupancy;
  num_lines = num;
}

abbrev added : CircularBuffer → Bytes → Bool → Option Bytes → CircularBuffer
added r kept truncated given =
    placed r kept truncated given (fwd r.buffer_size r.write_pos (length kept))
      (r.buf_occupancy + length kept) (r.num_lines + 1) (fwd r.max_lines r.write_line_index 1)
      (record { is_truncated = truncated; line_start = r.write_pos })

-- There is room for the line.
pub record Room (r : CircularBuffer) (ls : List Entry) (kept : Bytes) : Type 0 where
  pub holds : Holds r ls
  pub fits : length kept + total ls ≤ r.buffer_size
  pub short : length kept < r.buffer_size
  pub slot : length ls < r.max_lines

module _ (r : CircularBuffer) (ls : List Entry) (kept : Bytes) (room : Room r ls kept)
    (truncated : Bool) (given : Option Bytes) where
  add_record-HasRoom : HasRoom (add_record r truncated given) kept
  unfolding add_record
  add_record-HasRoom = record {
    storage = room.holds.sized.storage;
    position = room.holds.sized.position;
    fits = omega (arith, room.short);
  }

  -- None of the wrapping sums wraps.
  add_line-added : add_line r kept truncated given ≡ added r kept truncated given
  unfolding add_line add_record
  add_line-added =
      let q = add_record r truncated given in
      let make = placed r kept truncated given in
      let pos = fwd r.buffer_size r.write_pos (length kept) in
      let s = room.holds.sized in
      let i : ℕ =
        if add32 r.write_line_index 1 == r.max_lines then 0 else add32 r.write_line_index 1 in
      let info : LineInfo = record {
        is_truncated = truncated;
        line_start = r.write_pos % 2 ^ 31;
      } in
      let index_moves : i ≡ fwd r.max_lines r.write_line_index 1 = ground (arith, s.index, s.few) in
      let occupied : add32 r.buf_occupancy (length kept) ≡ r.buf_occupancy + length kept =
        omega (arith, room.fits, room.holds.occupied, s.small) in
      let counted : add32 r.num_lines 1 ≡ r.num_lines + 1 =
        omega (arith, room.slot, room.holds.counted, s.few) in
      let start : r.write_pos % 2 ^ 31 ≡ r.write_pos = omega (arith, s.position, s.small) in
      ap {A = CircularBuffer}
        (λ r'. record r' { buf_occupancy = add32 r'.buf_occupancy (length kept) })
        (write_text-fields q kept)
      ∙ ap (λ p. make p (add32 r.buf_occupancy (length kept)) (add32 r.num_lines 1) i info)
          (write_text-write_pos q kept add_record-HasRoom)
      ∙ ap (λ o. make pos o (add32 r.num_lines 1) i info) occupied
      ∙ ap (λ n. make pos (r.buf_occupancy + length kept) n i info) counted
      ∙ ap (λ j. make pos (r.buf_occupancy + length kept) (r.num_lines + 1) j info) index_moves
      ∙ ap
          (λ p.
            make pos (r.buf_occupancy + length kept) (r.num_lines + 1)
              (fwd r.max_lines r.write_line_index 1)
              (record { is_truncated = truncated; line_start = p }))
          start

  abbrev ring : CircularBuffer
  ring = added r kept truncated given

  abbrev entry : Entry
  entry = new_entry r kept truncated given

  -- A line keeps its slot and its start as the positions move on.
  slot_of-added :
      (ks : List Entry) → length ks < r.max_lines → slot_of ring (ks ++ entry ∷ []) ≡ slot_of r ks
  slot_of-added ks few =
      ap (back r.max_lines (fwd r.max_lines r.write_line_index 1)) (length-append ks (entry ∷ []))
      ∙ back-fwd r.max_lines r.write_line_index (length ks) 1 room.holds.sized.index (omega arith)

  start_of-added :
      (ks : List Entry)
      → total ks + length kept ≤ r.buffer_size
      → start_of ring (ks ++ entry ∷ []) ≡ start_of r ks
  start_of-added ks fits =
      ap (back r.buffer_size (fwd r.buffer_size r.write_pos (length kept))) (total-append ks entry)
      ∙ back-fwd r.buffer_size r.write_pos (total ks) (length kept) room.holds.sized.position fits

  -- A line that the buffer held is not touched.
  IsStored-old :
      (l : Entry) (newer : List Entry)
      → length (l ∷ newer) < r.max_lines
      → total (l ∷ newer) + length kept ≤ r.buffer_size
      → IsStored r l (slot_of r (l ∷ newer)) (start_of r (l ∷ newer))
      → IsStored ring l (slot_of r (l ∷ newer)) (start_of r (l ∷ newer))
  unfolding add_record
  IsStored-old l newer few fits old =
      let i = slot_of r (l ∷ newer) in
      let other : r.write_line_index ≢ i = λ e. ground (arith, e, room.holds.sized.index) in
      record {
        info = get_or-set_other r.lines r.write_line_index i _ _ other ∙ old.info;
        data_at = elim (Bool-cases (ltb 0 r.line_data_size)) [
          | inl some_data ↦ rw some_data (
              ap (take r.line_data_size)
                (get_or-set_other r.line_data r.write_line_index i _ _ other)
              ∙ old.data_at)
          | inr no_data ↦ rw no_data old.data_at
        ];
        text =
            window-write_text_old (add_record r truncated given) kept (length l.bytes)
              (total (l ∷ newer)) add_record-HasRoom (omega arith) fits
            ∙ old.text;
        short = old.short;
      }

  -- The new line stands where it was put.
  IsStored-new : IsStored ring entry r.write_line_index r.write_pos
  unfolding add_record
  IsStored-new = record {
    info =
        get_or-set_same r.lines r.write_line_index _ _
          (omega (arith, room.holds.sized.index, room.holds.sized.slots));
    data_at = elim (Bool-cases (ltb 0 r.line_data_size)) [
      | inl some_data ↦ rw some_data (
          ap (take r.line_data_size) (
            get_or-set_same r.line_data r.write_line_index _ _
              (omega (arith, room.holds.sized.index, room.holds.sized.data_slots)))
          ∙ take-data_slot r given)
      | inr no_data ↦ take-no_data r given _ no_data
    ];
    text = window-write_text_new (add_record r truncated given) kept add_record-HasRoom;
    short = room.short;
  }

  AllStored-added :
      (ks : List Entry)
      → length ks < r.max_lines
      → total ks + length kept ≤ r.buffer_size
      → AllStored r ks
      → AllStored ring (ks ++ entry ∷ [])
  AllStored-added [] few fits a = (
    subst (λ i. IsStored ring entry i (start_of ring (entry ∷ [])))
        (sym (slot_of-added [] few ∙ back-zero r.max_lines r.write_line_index))
        (subst (IsStored ring entry r.write_line_index)
          (sym (start_of-added [] fits ∙ back-zero r.buffer_size r.write_pos)) IsStored-new),
    tt,
  )
  AllStored-added (l ∷ ks) few fits a = (
    subst (λ i. IsStored ring l i (start_of ring (l ∷ ks ++ entry ∷ [])))
        (sym (slot_of-added (l ∷ ks) few))
        (subst (IsStored ring l (slot_of r (l ∷ ks))) (sym (start_of-added (l ∷ ks) fits))
          (IsStored-old l ks few fits a.0)),
    AllStored-added ks (omega arith) (omega arith) a.1,
  )

  added-Holds : Holds ring (ls ++ entry ∷ [])
  unfolding add_record
  added-Holds =
      let s = room.holds.sized in
      record {
        sized = record {
          storage = length-write_text (add_record r truncated given) kept ∙ s.storage;
          slots = length-set r.lines r.write_line_index _ ∙ s.slots;
          data_slots = elim (Bool-cases (ltb 0 r.line_data_size)) [
            | inl some_data ↦
                rw some_data (length-set r.line_data r.write_line_index _ ∙ s.data_slots)
            | inr no_data ↦ rw no_data s.data_slots
          ];
          position = ground (arith, s.position, room.short);
          index = ground (arith, s.index);
          small = s.small;
          few = s.few;
          short = s.short;
        };
        counted = omega (arith, room.holds.counted, length-append ls (entry ∷ []));
        few = omega (arith, room.slot, length-append ls (entry ∷ []));
        occupied = omega (arith, room.holds.occupied, total-append ls entry);
        fits = omega (arith, room.fits, total-append ls entry);
        stored = AllStored-added ls room.slot (omega (arith, room.fits)) room.holds.stored;
      }

  -- The buffer holds the line behind the others.
  pub add_line-Holds : Holds (add_line r kept truncated given) (ls ++ entry ∷ [])
  add_line-Holds = subst (λ x. Holds x (ls ++ entry ∷ [])) (sym add_line-added) added-Holds
