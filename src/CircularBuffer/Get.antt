-- ===== src/CircularBuffer/Get.antt =====
-- `yc_circular_buffer_get_line` against the list of the buffer's lines.
use yapara_c.Prelude.{
  ℕ, suc, ◌+◌, ◌-◌, ◌≤◌, ◌<◌, true, false, ◌&&◌, List, [], ◌∷◌, ◌++◌, append-nil, none, some, ◌≡◌,
  ◌≢◌, ◌⊎◌, inl, inr, refl, ap, sym, ◌∙◌, arith, ltb, leb, ◌==◌, if◌then◌else◌, get_or, take,
  length, length-append, Bool-cases,
}
use yapara_c.CircularBuffer.{
  Bytes, CircularBuffer, LineInfo, Line, line_at, slice, slot_back, next_start, line_parts,
  get_line,
}
use yapara_c.CircularBuffer.Layout.{
  window, back-lt, Apart, back-Apart, window-slice, window-two_slices,
}
use yapara_c.CircularBuffer.Content.{
  Entry, total, slot_of, start_of, end_of, AllStored, Holds, slot_back-back, end_of-start_of,
}

abbrev joined : Bytes × Bytes → Bytes
joined (first, second) = first ++ second

-- The test for a lone line that fills the ring fails for a shorter one.
lone-false :
    (r : CircularBuffer) (len s e : ℕ)
    → s < r.buffer_size
    → e < r.buffer_size
    → len < r.buffer_size
    → Apart r.buffer_size len s e
    → (r.num_lines ≢ 1) ⊎ (r.buf_occupancy ≡ len)
    → (s == e && r.num_lines == 1 && ltb 0 r.buf_occupancy) ≡ false
lone-false r len s e hs he short (inl near) (inl many) = ground arith
lone-false r len s e hs he short (inl near) (inr one) = ground arith
lone-false r len s e hs he short (inr round) (inl many) = ground arith
lone-false r len s e hs he short (inr round) (inr one) = ground arith

-- The two parts, one behind the other, are the bytes round the ring.
line_parts-window :
    (r : CircularBuffer) (len s e : ℕ)
    → s < r.buffer_size
    → e < r.buffer_size
    → len < r.buffer_size
    → Apart r.buffer_size len s e
    → (s == e && r.num_lines == 1 && ltb 0 r.buf_occupancy) ≡ false
    → joined (line_parts r s e) ≡ window r.buffer_size r.buf s len
unfolding line_parts
line_parts-window r len s e hs he short (inl near) lone =
    let before : leb s e ≡ true = ground arith in
    rw (lone, before, append-nil)
      (ap (slice r.buf s) (omega arith)
        ∙ sym (window-slice r.buffer_size r.buf s len (omega arith)))
line_parts-window r len s e hs he short (inr round) lone =
    let B = r.buffer_size in
    let after : leb s e ≡ false = ground arith in
    elim (Bool-cases (e == 0)) [
      | inl at_end ↦
          let rest : B - s ≡ len = ground arith in
          rw (lone, after, at_end, append-nil)
            (ap (slice r.buf s) rest ∙ sym (window-slice B r.buf s len (omega arith)))
      | inr wrapped ↦
          let both : B - s + e ≡ len = omega arith in
          rw (lone, after, wrapped)
            (sym (window-two_slices B r.buf s (B - s) e hs (omega arith) (omega arith))
              ∙ ap (window B r.buf s) both)
    ]

AllStored-newer :
    (r : CircularBuffer) (older ls : List Entry) → AllStored r (older ++ ls) → AllStored r ls
AllStored-newer r [] ls a = a
AllStored-newer r (k ∷ older) ls a = AllStored-newer r older ls a.1

total-le : (older ls : List Entry) → total ls ≤ total (older ++ ls)
total-le [] ls = omega arith
total-le (k ∷ older) ls = omega (arith, total-le older ls)

-- Only a lone line may fill the buffer.
lone-or-many :
    (r : CircularBuffer) (older newer : List Entry) (l : Entry)
    → Holds r (older ++ l ∷ newer)
    → (r.num_lines ≢ 1) ⊎ (r.buf_occupancy ≡ length l.bytes)
lone-or-many r [] [] l h = inr (omega (arith, h.occupied))
lone-or-many r [] (k ∷ newer) l h = inl (omega (arith, h.counted))
lone-or-many r (k ∷ older) newer l h =
    inl (omega (arith, h.counted, length-append older (l ∷ newer)))

-- The end that is looked up is where the next line starts.
end_pos-start_of :
    (r : CircularBuffer) (newer : List Entry) (l : Entry)
    → (if length newer == 0 then r.write_pos else next_start r (slot_of r (l ∷ newer)))
      ≡ end_of r newer
end_pos-start_of r [] l = refl
end_pos-start_of r (k ∷ newer) l =
    let more : (suc (length newer) == 0) ≡ false = ground arith in
    ap (λ t. if t then r.write_pos else next_start r (slot_of r (l ∷ k ∷ newer))) more

-- The line with what its record says, an end, and its data.
abbrev made_line : CircularBuffer → LineInfo → ℕ → Bytes → Line
made_line r info end_pos stored = record {
  first_part = (line_parts r info.line_start end_pos).0;
  second_part = (line_parts r info.line_start end_pos).1;
  truncated = info.is_truncated;
  line_data = take r.line_data_size stored;
}

-- The line that has `newer` behind it is the one that its age gives: its two parts make up its
-- bytes, and it comes with its mark and its data.
pub get_line-Holds :
    (r : CircularBuffer) (older newer : List Entry) (l : Entry)
    → Holds r (older ++ l ∷ newer)
    → (line : Line) × (get_line r (length newer) ≡ some line)
      × (line.first_part ++ line.second_part ≡ l.bytes)
      × (line.truncated ≡ l.truncated)
      × (line.line_data ≡ l.user_data)
unfolding get_line
get_line-Holds r older newer l h =
    let B = r.buffer_size in
    let M = r.max_lines in
    let lines = length-append older (l ∷ newer) in
    let a = AllStored-newer r older (l ∷ newer) h.stored in
    let fits : total (l ∷ newer) ≤ B = omega (arith, total-le older (l ∷ newer), h.fits) in
    let few : suc (length newer) ≤ M = omega (arith, lines, h.few) in
    let inside : ltb (length newer) r.num_lines ≡ true = ground (arith, lines, h.counted) in
    let slot : slot_back r (length newer + 1) ≡ slot_of r (l ∷ newer) =
      ap (slot_back r) (omega arith)
      ∙ slot_back-back r (suc (length newer)) h.sized (omega arith) few in
    let next : (if length newer == 0 then r.write_pos else next_start r (slot_of r (l ∷ newer)))
        ≡ start_of r newer =
      end_pos-start_of r newer l ∙ end_of-start_of r newer h.sized few a.1 in
    let start_in = back-lt B r.write_pos (total (l ∷ newer)) h.sized.position fits in
    let next_in = back-lt B r.write_pos (total newer) h.sized.position (omega arith) in
    let apart = back-Apart B r.write_pos (length l.bytes) (total newer) h.sized.position fits in
    let info : LineInfo = record {
      is_truncated = l.truncated;
      line_start = start_of r (l ∷ newer);
    } in
    let bytes_at = get_or r.line_data (slot_of r (l ∷ newer)) [] in
    let found : get_line r (length newer) ≡ some (made_line r info (start_of r newer) bytes_at) =
      rw inside (
        ap
          (λ i. some (
            made_line r (line_at r i) (if length newer == 0 then r.write_pos else next_start r i)
              (get_or r.line_data i [])))
          slot
        ∙ ap (λ e. some (made_line r (line_at r (slot_of r (l ∷ newer))) e bytes_at)) next
        ∙ ap (λ x. some (made_line r x (start_of r newer) bytes_at)) a.0.info) in
    (
      made_line r info (start_of r newer) bytes_at,
      found,
      line_parts-window r (length l.bytes) (start_of r (l ∷ newer)) (start_of r newer) start_in
            next_in a.0.short apart
            (lone-false r (length l.bytes) _ _ start_in next_in a.0.short apart
              (lone-or-many r older newer l h))
          ∙ a.0.text,
      refl,
      a.0.data_at,
    )

-- An age that no line has fails the assertion.
pub get_line-none :
    (r : CircularBuffer) (ls : List Entry) (idx : ℕ)
    → Holds r ls
    → length ls ≤ idx
    → get_line r idx ≡ none
unfolding get_line
get_line-none r ls idx h old =
    let outside : ltb idx r.num_lines ≡ false = ground (arith, h.counted) in rw outside refl
