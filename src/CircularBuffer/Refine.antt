-- ===== src/CircularBuffer/Refine.antt =====
-- `yc_circular_buffer_new` and `yc_circular_buffer_add` against the list of the buffer's lines.
use yapara_c.Prelude.{
  ℕ, zero, suc, ◌+◌, ◌-◌, ◌^◌, ◌≤◌, ◌<◌, true, false, List, [], ◌∷◌, ◌++◌, Option, none, some, ◌≡◌,
  ◌⊎◌, inl, inr, refl, ap, ◌∙◌, subst, arith, ltb, leb, ◌==◌, get_or, take, length, length-take,
  Bool-cases,
}
use yapara_c.Prelude.Loop.{ok}
use yapara_c.CircularBuffer.{
  Bytes, CircularBuffer, NewOptions, Storage, new, is_utf8_initial_char, back_to_initial,
  kept_length, data_slot, add_line, add,
}
use yapara_c.CircularBuffer.Content.{Entry, Holds}
use yapara_c.CircularBuffer.Evict.{recount}
use yapara_c.CircularBuffer.Room.{lines_kept, lines_kept-room, evict-Evicts}
use yapara_c.CircularBuffer.Add.{new_entry, Room, add_line-Holds}

-- A byte that begins a character is below 128 or from 192 on: those between continue one. A line
-- is cut back to a byte that begins a character, or to nothing; of the cuts up to `n` this is the
-- longest.
pub record IsCut (text : Bytes) (n k : ℕ) : Type 0 where
  pub short : k ≤ n
  pub whole : (k ≡ 0) ⊎ (get_or text k 0 < 128) ⊎ (192 ≤ get_or text k 0)
  pub longest : (j : ℕ) → k < j → j ≤ n → (128 ≤ get_or text j 0) × (get_or text j 0 < 192)

initial_lem : (c : ℕ) → is_utf8_initial_char c ≡ true → (c < 128) ⊎ (192 ≤ c)
unfolding is_utf8_initial_char
initial_lem c h = ground arith

inner_lem : (c : ℕ) → is_utf8_initial_char c ≡ false → (128 ≤ c) × (c < 192)
unfolding is_utf8_initial_char
inner_lem c h = ground arith

back_to_initial-back :
    (text : Bytes) (n : ℕ)
    → is_utf8_initial_char (get_or text (suc n) 0) ≡ false
    → IsCut text n (back_to_initial text n)
    → IsCut text (suc n) (back_to_initial text n)
back_to_initial-back text n inner cut = record {
  short = omega (arith, cut.short);
  whole = cut.whole;
  longest = λ j above below. elim (Bool-cases (j == suc n)) [
    | inl last ↦
        inner_lem (get_or text j 0)
          (ap (λ i. is_utf8_initial_char (get_or text i 0)) (ground arith) ∙ inner)
    | inr earlier ↦ cut.longest j above (ground arith)
  ];
}

-- With UTF-8 sensitive truncation a cut lies before a byte below 128 or from 192 on, or at the
-- start, and each later byte up to the limit is one from 128 to 191.
pub back_to_initial-IsCut : (text : Bytes) (n : ℕ) → IsCut text n (back_to_initial text n)
unfolding back_to_initial
back_to_initial-IsCut text zero = record {
  short = omega arith;
  whole = inl refl;
  longest = λ j h k. absurd (omega arith);
}
back_to_initial-IsCut text (suc n) =
    elim (Bool-cases (is_utf8_initial_char (get_or text (suc n) 0))) [
      | inl begins ↦ rw begins (record {
        short = omega arith;
        whole = inr (initial_lem (get_or text (suc n) 0) begins);
        longest = λ j h k. absurd (omega arith);
      })
      | inr inner ↦ rw inner (back_to_initial-back text n inner (back_to_initial-IsCut text n))
    ]

kept_length-le :
    (r : CircularBuffer) (text : Bytes)
    → (kept_length r text ≤ r.max_line_length) × (kept_length r text ≤ length text)
unfolding kept_length
kept_length-le r text =
    let cut : back_to_initial text r.max_line_length ≤ r.max_line_length =
      (back_to_initial-IsCut text r.max_line_length).short in
    (ground arith, ground arith)

-- The line that is added for a text.
abbrev pub line_of : CircularBuffer → Bytes → Option Bytes → Entry
line_of r text given =
    new_entry r (take (kept_length r text) text) (ltb r.max_line_length (length text)) given

data_slot-recount :
    (r : CircularBuffer) (n o : ℕ) (given : Option Bytes)
    → data_slot (recount r n o) given ≡ data_slot r given
unfolding data_slot
data_slot-recount r n o none = refl
data_slot-recount r n o (some g) = refl

-- Where the buffer holds a list of lines, `yc_circular_buffer_add` returns. The buffer then holds the
-- text, cut to its limit, behind the lines that are left when the oldest are dropped as long as
-- there is no room, and the result is the number of those dropped.
pub add-Holds :
    (r : CircularBuffer) (text : Bytes) (given : Option Bytes) (ls : List Entry)
    → Holds r ls
    → let left = lines_kept r.buffer_size r.max_lines (kept_length r text) ls in
      (r' : CircularBuffer) × (add r text given ≡ ok (length ls - length left, r'))
      × Holds r' (left ++ line_of r text given ∷ [])
unfolding add
add-Holds r text given ls h =
    let pos : 0 < r.max_lines = omega (arith, h.sized.index) in
    let B = r.buffer_size in
    let M = r.max_lines in
    let len = kept_length r text in
    let (below, within) = kept_length-le r text in
    let fits : len ≤ B = omega (arith, h.sized.short) in
    let (n, o, ran, held) = evict-Evicts len r ls h fits pos in
    let left = lines_kept B M len ls in
    let (space, slot) = lines_kept-room B M len ls fits pos h.few in
    let cut : length (take len text) ≡ len = omega (arith, length-take len text) in
    let ready : Room (recount r n o) left (take len text) = record {
      holds = held;
      fits = omega arith;
      short = omega (arith, h.sized.short);
      slot = slot;
    } in
    let truncated = ltb r.max_line_length (length text) in
    let none_before : 0 + (length ls - length left) ≡ length ls - length left = omega arith in
    (
      add_line (recount r n o) (take len text) truncated given,
      rw (ran, none_before) refl,
      subst
          (λ d.
            Holds (add_line (recount r n o) (take len text) truncated given)
              (left ++ record { bytes = take len text; truncated = truncated; user_data = d } ∷ []))
          (data_slot-recount r n o given)
          (add_line-Holds (recount r n o) left (take len text) ready truncated given),
    )

-- Storage of the sizes that the options ask for.
pub record IsAllocated (o : NewOptions) (storage : Storage) : Type 0 where
  pub bytes : length storage.buf ≡ o.buffer_size
  pub slots : length storage.lines ≡ o.max_lines
  pub data_slots : length storage.line_data ≡ o.max_lines
  pub small : o.buffer_size ≤ 2 ^ 31
  pub few : o.max_lines ≤ 2 ^ 31
  pub some_slot : 0 < o.max_lines
  pub short : o.max_line_length < o.buffer_size

-- A new buffer holds no lines.
pub new-Holds :
    (o : NewOptions) (storage : Storage)
    → IsAllocated o storage
    → (r : CircularBuffer) × (new o storage ≡ some r) × Holds r []
unfolding new
new-Holds o storage a =
    let fits : leb o.max_line_length o.buffer_size ≡ true = ground (arith, a.short) in
    rw fits (
      _,
      refl,
      record {
        sized = record {
          storage = a.bytes;
          slots = a.slots;
          data_slots = a.data_slots;
          position = omega (arith, a.short);
          index = a.some_slot;
          small = a.small;
          few = a.few;
          short = a.short;
        };
        counted = refl;
        few = omega arith;
        occupied = refl;
        fits = omega arith;
        stored = tt;
      },
    )
