-- ===== src/CircularBuffer/Evict.antt =====
-- Eviction drops the oldest line.
use yapara_c.Prelude.{
  ℕ, suc, ◌-◌, ◌^◌, ◌≤◌, ◌<◌, false, List, [], ◌∷◌, ◌≡◌, ◌≢◌, ◌⊎◌, inl, inr, ap, ◌∙◌, arith, ◌==◌,
  if◌then◌else◌, length,
}
use yapara_c.CircularBuffer.{
  CircularBuffer, line_at, slot_back, next_start, oldest_line_len, drop_oldest,
}
use yapara_c.CircularBuffer.Layout.{back-lt, Apart, back-Apart}
use yapara_c.CircularBuffer.Content.{
  Entry, total, slot_of, start_of, AllStored, IsSized, Holds, slot_back-back, end_of-start_of,
}

-- The length of a line is computed from its ends, which tell it short of a whole ring.
oldest_line_len-Apart :
    (r : CircularBuffer) (len s e : ℕ)
    → s < r.buffer_size
    → e < r.buffer_size
    → r.buffer_size ≤ 2 ^ 31
    → len < r.buffer_size
    → (r.num_lines ≢ 1) ⊎ (r.buf_occupancy ≡ len)
    → Apart r.buffer_size len s e
    → oldest_line_len r s e ≡ len
unfolding oldest_line_len
oldest_line_len-Apart r len s e hs he small short only (inl near) = ground arith
oldest_line_len-Apart r len s e hs he small short only (inr round) = ground arith

only_line :
    (r : CircularBuffer) (l : Entry) (ls : List Entry)
    → Holds r (l ∷ ls)
    → (r.num_lines ≢ 1) ⊎ (r.buf_occupancy ≡ length l.bytes)
only_line r l [] h = inr (omega (arith, h.occupied))
only_line r l (k ∷ ls) h = inl (omega (arith, h.counted))

oldest_line_len-length :
    (r : CircularBuffer) (l : Entry) (ls : List Entry)
    → Holds r (l ∷ ls)
    → oldest_line_len r (start_of r (l ∷ ls)) (start_of r ls) ≡ length l.bytes
oldest_line_len-length r l ls h =
    let B = r.buffer_size in
    oldest_line_len-Apart r (length l.bytes) (start_of r (l ∷ ls)) (start_of r ls)
      (back-lt B r.write_pos (total (l ∷ ls)) h.sized.position h.fits)
      (back-lt B r.write_pos (total ls) h.sized.position (omega (arith, h.fits))) h.sized.small
      h.stored.0.short (only_line r l ls h)
      (back-Apart B r.write_pos (length l.bytes) (total ls) h.sized.position h.fits)

not_one : (n : ℕ) → (suc (suc n) == 1) ≡ false
not_one n = ground arith

-- The end that the loop looks up is where the next line starts.
end_pos-start_of :
    (r : CircularBuffer) (l : Entry) (ls : List Entry)
    → Holds r (l ∷ ls)
    → (if r.num_lines == 1 then r.write_pos else next_start r (slot_of r (l ∷ ls))) ≡ start_of r ls
end_pos-start_of r l [] h =
    ap (λ n. if n == 1 then r.write_pos else next_start r (slot_of r (l ∷ []))) h.counted
    ∙ end_of-start_of r [] h.sized h.few tt
end_pos-start_of r l (k ∷ ls) h =
    ap (λ n. if n == 1 then r.write_pos else next_start r (slot_of r (l ∷ k ∷ ls))) h.counted
    ∙ ap (λ t. if t then r.write_pos else next_start r (slot_of r (l ∷ k ∷ ls)))
        (not_one (length ls))
    ∙ end_of-start_of r (k ∷ ls) h.sized h.few h.stored.1

abbrev pub recount : CircularBuffer → ℕ → ℕ → CircularBuffer
recount r n o = record r { num_lines = n; buf_occupancy = o }

pub AllStored-recount :
    (r : CircularBuffer) (n o : ℕ) (ls : List Entry) → AllStored r ls → AllStored (recount r n o) ls
AllStored-recount r n o [] a = tt
AllStored-recount r n o (l ∷ ls) a = (
  record { info = a.0.info; data_at = a.0.data_at; text = a.0.text; short = a.0.short },
  AllStored-recount r n o ls a.1,
)

IsSized-recount : (r : CircularBuffer) (n o : ℕ) → IsSized r → IsSized (recount r n o)
IsSized-recount r n o s = record {
  storage = s.storage;
  slots = s.slots;
  data_slots = s.data_slots;
  position = s.position;
  index = s.index;
  small = s.small;
  few = s.few;
  short = s.short;
}

-- The length that a round computes is that of the oldest line.
dropped-length :
    (r : CircularBuffer) (l : Entry) (ls : List Entry)
    → Holds r (l ∷ ls)
    → let i = slot_back r r.num_lines in
      oldest_line_len r
        (line_at r i).line_start
        (if r.num_lines == 1 then r.write_pos else next_start r i)
      ≡ length l.bytes
dropped-length r l ls h =
    let slot : slot_back r r.num_lines ≡ slot_of r (l ∷ ls) =
      ap (slot_back r) h.counted ∙ slot_back-back r (suc (length ls)) h.sized (omega arith) h.few in
    ap
      (λ i.
        oldest_line_len r (line_at r i).line_start
          (if r.num_lines == 1 then r.write_pos else next_start r i))
      slot
    ∙ ap (λ e. oldest_line_len r (line_at r (slot_of r (l ∷ ls))).line_start e)
        (end_pos-start_of r l ls h)
    ∙ ap (λ x. oldest_line_len r x.line_start (start_of r ls)) h.stored.0.info
    ∙ oldest_line_len-length r l ls h

pub drop_oldest-Holds :
    (r : CircularBuffer) (l : Entry) (ls : List Entry) → Holds r (l ∷ ls) → Holds (drop_oldest r) ls
unfolding drop_oldest
drop_oldest-Holds r l ls h =
    let o = (drop_oldest r).buf_occupancy in
    let n = r.num_lines - 1 in
    record {
      sized = IsSized-recount r n o h.sized;
      counted = omega (arith, h.counted);
      few = omega (arith, h.few);
      occupied = omega (arith, dropped-length r l ls h, h.occupied, h.fits, h.sized.small);
      fits = omega (arith, h.fits);
      stored = AllStored-recount r n o ls h.stored.1;
    }
