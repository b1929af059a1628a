-- ===== src/CircularBuffer/Slots.antt =====
-- Slots that are written, and the fields that a write of text leaves.
use yapara_c.Prelude.{
  ℕ, length-replicate, ℕ, ◌+◌, false, List, [], ◌∷◌, ◌++◌, Option, none, some, ◌≡◌, inl, inr, refl,
  ap, sym, ◌∙◌, arith, ltb, ◌==◌, take, length, length-take, take_of_le, Bool-cases,
}
use yapara_c.CircularBuffer.{Bytes, CircularBuffer, data_slot, write_text}
use yapara_c.CircularBuffer.Content.{Entry, total}

pub take-data_slot :
    (r : CircularBuffer) (given : Option Bytes)
    → take r.line_data_size (data_slot r given) ≡ data_slot r given
unfolding data_slot
take-data_slot r none = take_of_le _ _ (omega (arith, length-replicate {A = ℕ} r.line_data_size 0))
take-data_slot r (some g) = take_of_le _ _ (omega (arith, length-take r.line_data_size g))

pub take-no_data :
    (r : CircularBuffer) (given : Option Bytes) (xs : Bytes)
    → ltb 0 r.line_data_size ≡ false
    → take r.line_data_size xs ≡ data_slot r given
take-no_data r given xs h =
    let none_used : r.line_data_size ≡ 0 = ground arith in
    ap (λ n. take n xs) none_used
    ∙ sym (ap (λ n. take n (data_slot r given)) none_used)
    ∙ take-data_slot r given

-- A write changes the storage and `write_pos`.
pub write_text-fields :
    (r : CircularBuffer) (text : Bytes)
    → write_text r text
      ≡ record r { buf = (write_text r text).buf; write_pos = (write_text r text).write_pos }
unfolding write_text
write_text-fields r text = elim (Bool-cases (ltb (r.write_pos + length text) r.buffer_size)) [
  | inl inside ↦ rw inside refl
  | inr past ↦ elim (Bool-cases (r.write_pos + length text == r.buffer_size)) [
    | inl edge ↦ rw (past, edge) refl
    | inr over ↦ rw (past, over) refl
  ]
]

pub total-append : (ls : List Entry) (l : Entry) → total (ls ++ l ∷ []) ≡ total ls + length l.bytes
total-append [] l = omega arith
total-append (k ∷ ls) l = omega (arith, total-append ls l)
