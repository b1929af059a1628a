-- ===== src/CircularBuffer/Write.antt =====
-- Which bytes a write at `write_pos` changes.
use yapara_c.Prelude.{
  ℕ, zero, suc, ◌+◌, ◌-◌, ◌≤◌, ◌<◌, ◌&&◌, [], ◌∷◌, ◌≡◌, refl, sym, ap, ◌∙◌, arith, ltb, leb, ◌==◌,
  if◌then◌else◌, get_or, set, take, drop, length, length-set, length-take, length-drop,
}
use yapara_c.CircularBuffer.{Bytes, CircularBuffer, memcpy, write_text}
use yapara_c.CircularBuffer.Layout.{back, fwd, window, fwd-back, fwd-fwd}

pub length-memcpy : (text dst : Bytes) (at : ℕ) → length (memcpy dst at text) ≡ length dst
unfolding memcpy
length-memcpy [] dst at = refl
length-memcpy (c ∷ text) dst at = length-memcpy text (set dst at c) (suc at) ∙ length-set dst at c

get_or-set :
    (xs : Bytes) (i j v : ℕ)
    → i < length xs
    → get_or (set xs i v) j 0 ≡ (if i == j then v else get_or xs j 0)
get_or-set [] i j v h = absurd (omega arith)
get_or-set (x ∷ xs) zero zero v h = refl
get_or-set (x ∷ xs) zero (suc j) v h = ground arith
get_or-set (x ∷ xs) (suc i) zero v h = ground arith
get_or-set (x ∷ xs) (suc i) (suc j) v h = ground (arith, get_or-set xs i j v)

get_or-cons :
    (c : ℕ) (xs : Bytes) (i : ℕ) → get_or (c ∷ xs) i 0 ≡ (if i == 0 then c else get_or xs (i - 1) 0)
get_or-cons c xs zero = refl
get_or-cons c xs (suc i) = ground arith

pub memcpy-get :
    (text dst : Bytes) (at j : ℕ)
    → at + length text ≤ length dst
    → get_or (memcpy dst at text) j 0
      ≡ (if leb at j && ltb j (at + length text) then get_or text (j - at) 0 else get_or dst j 0)
unfolding memcpy
memcpy-get [] dst at j h = ground arith
memcpy-get (c ∷ text) dst at j h = ground (
  arith,
  memcpy-get text (set dst at c) (suc at) j,
  length-set dst at c,
  get_or-set dst at j c,
  get_or-cons c text (j - at),
)

get_or-take : (xs : Bytes) (n i : ℕ) → i < n → get_or (take n xs) i 0 ≡ get_or xs i 0
get_or-take xs zero i h = elim h [ ]
get_or-take [] (suc n) i h = refl
get_or-take (x ∷ xs) (suc n) zero h = refl
get_or-take (x ∷ xs) (suc n) (suc i) h = get_or-take xs n i (omega arith)

get_or-drop : (xs : Bytes) (n i : ℕ) → get_or (drop n xs) i 0 ≡ get_or xs (i + n) 0
get_or-drop xs zero i = ap (λ k. get_or xs k 0) (omega arith)
get_or-drop [] (suc n) i = refl
get_or-drop (x ∷ xs) (suc n) i = get_or-drop xs n i ∙ ground (arith, get_or-cons x xs (i + suc n))

-- The buffer may take `text` at `write_pos`.
pub record HasRoom (r : CircularBuffer) (text : Bytes) : Type 0 where
  pub storage : length r.buf ≡ r.buffer_size
  pub position : r.write_pos < r.buffer_size
  pub fits : length text ≤ r.buffer_size

pub length-write_text :
    (r : CircularBuffer) (text : Bytes) → length (write_text r text).buf ≡ length r.buf
unfolding write_text
length-write_text r text = ground (
  arith,
  length-memcpy text r.buf r.write_pos,
  length-memcpy (take (r.buffer_size - r.write_pos) text) r.buf r.write_pos,
  length-memcpy (drop (r.buffer_size - r.write_pos) text)
      (memcpy r.buf r.write_pos (take (r.buffer_size - r.write_pos) text)) 0,
)

-- `write_pos` moves on round the ring.
pub write_text-write_pos :
    (r : CircularBuffer) (text : Bytes)
    → HasRoom r text
    → (write_text r text).write_pos ≡ fwd r.buffer_size r.write_pos (length text)
unfolding write_text
write_text-write_pos r text h = ground arith

-- The byte at an index after the write.
write_text-get :
    (r : CircularBuffer) (text : Bytes) (j : ℕ)
    → HasRoom r text
    → get_or (write_text r text).buf j 0 ≡ (
        if leb r.write_pos j && ltb j (r.write_pos + length text) && ltb j r.buffer_size
        then get_or text (j - r.write_pos) 0
        else if ltb (j + r.buffer_size) (r.write_pos + length text)
        then get_or text (j + r.buffer_size - r.write_pos) 0
        else get_or r.buf j 0)
unfolding write_text
write_text-get r text j h =
    let m = r.buffer_size - r.write_pos in
    let first = memcpy r.buf r.write_pos (take m text) in
    ground (
      arith,
      memcpy-get text r.buf r.write_pos j,
      memcpy-get (drop m text) first 0 j,
      memcpy-get (take m text) r.buf r.write_pos j,
      length-memcpy (take m text) r.buf r.write_pos,
      length-take m text,
      length-drop m text,
      get_or-take text m (j - r.write_pos),
      get_or-drop text m (j - 0),
    )

-- A position less than a ring's length behind `write_pos`, and clear of the text, keeps its byte.
get-old :
    (r : CircularBuffer) (text : Bytes) (d : ℕ)
    → HasRoom r text
    → 0 < d
    → d + length text ≤ r.buffer_size
    → let p = back r.buffer_size r.write_pos d in
      get_or (write_text r text).buf p 0 ≡ get_or r.buf p 0
get-old r text d h pos k =
    ground (arith, write_text-get r text (back r.buffer_size r.write_pos d) h)

get-new :
    (r : CircularBuffer) (text : Bytes) (j : ℕ)
    → HasRoom r text
    → j < length text
    → get_or (write_text r text).buf (fwd r.buffer_size r.write_pos j) 0 ≡ get_or text j 0
get-new r text j h k = ground (arith, write_text-get r text (fwd r.buffer_size r.write_pos j) h)

-- The text of an older line is not touched.
pub window-write_text_old :
    (r : CircularBuffer) (text : Bytes) (n d : ℕ)
    → HasRoom r text
    → n ≤ d
    → d + length text ≤ r.buffer_size
    → let p = back r.buffer_size r.write_pos d in
      window r.buffer_size (write_text r text).buf p n ≡ window r.buffer_size r.buf p n
window-write_text_old r text zero d h n k = refl
window-write_text_old r text (suc n) zero h m k = absurd (omega arith)
window-write_text_old r text (suc n) (suc d) h m k =
    let B = r.buffer_size in
    rw (get-old r text (suc d) h (omega arith) k) (
      ap (◌∷◌ (get_or r.buf (back B r.write_pos (suc d)) 0)) (
        rw (fwd-back B r.write_pos d h.position (omega arith))
          (window-write_text_old r text n d h (omega arith) (omega arith))))

get_or-drop_cons :
    (text : Bytes) (j : ℕ) → j < length text → drop j text ≡ get_or text j 0 ∷ drop (suc j) text
get_or-drop_cons [] j h = absurd (omega arith)
get_or-drop_cons (c ∷ text) zero h = refl
get_or-drop_cons (c ∷ text) (suc j) h = get_or-drop_cons text j (omega arith)

drop_all : (xs : Bytes) (n : ℕ) → length xs ≤ n → drop n xs ≡ []
drop_all [] zero h = refl
drop_all [] (suc n) h = refl
drop_all (x ∷ xs) zero h = absurd (omega arith)
drop_all (x ∷ xs) (suc n) h = drop_all xs n (omega arith)

fwd-zero : (B p : ℕ) → p < B → fwd B p 0 ≡ p
fwd-zero B p h = ground arith

window-write_text_from :
    (r : CircularBuffer) (text : Bytes) (n j : ℕ)
    → HasRoom r text
    → j + n ≡ length text
    → window r.buffer_size (write_text r text).buf (fwd r.buffer_size r.write_pos j) n ≡ drop j text
window-write_text_from r text zero j h k = sym (drop_all text j (omega arith))
window-write_text_from r text (suc n) j h k =
    let B = r.buffer_size in
    rw (get-new r text j h (omega arith), get_or-drop_cons text j (omega arith))
      (ap (◌∷◌ (get_or text j 0)) (
        rw (fwd-fwd B r.write_pos j h.position (omega arith))
          (window-write_text_from r text n (suc j) h (omega arith))))

-- The text stands where it was written.
pub window-write_text_new :
    (r : CircularBuffer) (text : Bytes)
    → HasRoom r text
    → window r.buffer_size (write_text r text).buf r.write_pos (length text) ≡ text
window-write_text_new r text h =
    ap (λ p. window r.buffer_size (write_text r text).buf p (length text))
      (sym (fwd-zero r.buffer_size r.write_pos h.position))
    ∙ window-write_text_from r text (length text) 0 h (omega arith)
