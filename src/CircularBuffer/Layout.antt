-- ===== src/CircularBuffer/Layout.antt =====
-- Positions on a ring of size `B`, and the bytes from a position on.
use native.Mathlib.Nat.{zero-add, suc-add}
use yapara_c.Prelude.{
  ℕ, zero, suc, ◌+◌, ◌-◌, ◌≤◌, ◌<◌, [], ◌∷◌, ◌++◌, ◌≡◌, ◌⊎◌, refl, ap, ◌∙◌, arith, ltb, leb,
  if◌then◌else◌, get_or, length,
}
use yapara_c.CircularBuffer.{Bytes, slice}

-- `d` steps back from `p`, and `n` steps on.
abbrev pub back : ℕ → ℕ → ℕ → ℕ
back B p d = if leb d p then p - d else p + B - d

abbrev pub fwd : ℕ → ℕ → ℕ → ℕ
fwd B p n = if ltb (p + n) B then p + n else p + n - B

pub back-lt : (B p d : ℕ) → p < B → d ≤ B → back B p d < B
back-lt B p d h k = ground arith

pub back-zero : (B p : ℕ) → back B p 0 ≡ p
back-zero B p = ground arith

-- Two positions that are `len` bytes apart.
abbrev pub Apart : ℕ → ℕ → ℕ → ℕ → Type 0
Apart B len s e = (s + len ≡ e) ⊎ (s + len ≡ e + B)

pub back-Apart :
    (B p len d : ℕ) → p < B → len + d ≤ B → Apart B len (back B p (len + d)) (back B p d)
back-Apart B p len d h k = ground arith

pub fwd-back : (B p d : ℕ) → p < B → suc d ≤ B → fwd B (back B p (suc d)) 1 ≡ back B p d
fwd-back B p d h k = ground arith

pub back-fwd : (B p d n : ℕ) → p < B → d + n ≤ B → back B (fwd B p n) (d + n) ≡ back B p d
back-fwd B p d n h k = ground arith

pub fwd-fwd : (B p n : ℕ) → p < B → suc n ≤ B → fwd B (fwd B p n) 1 ≡ fwd B p (suc n)
fwd-fwd B p n h k = ground arith

-- The `n` bytes from `p` on, going round at `B`.
abbrev pub window : ℕ → Bytes → ℕ → ℕ → Bytes
window B buf p zero = []
window B buf p (suc n) = get_or buf p 0 ∷ window B buf (fwd B p 1) n

pub length-window : (B : ℕ) (buf : Bytes) (p n : ℕ) → length (window B buf p n) ≡ n
length-window B buf p zero = refl
length-window B buf p (suc n) = ap suc (length-window B buf (fwd B p 1) n)

fwd-next : (B p : ℕ) → suc p < B → fwd B p 1 ≡ suc p
fwd-next B p h = ground arith

fwd-wraps : (B p : ℕ) → p + 1 ≡ B → fwd B p 1 ≡ 0
fwd-wraps B p h = ground arith

-- A window that does not pass the end is a slice.
pub window-slice : (B : ℕ) (buf : Bytes) (p n : ℕ) → p + n ≤ B → window B buf p n ≡ slice buf p n
unfolding slice
window-slice B buf p zero h = refl
window-slice B buf p (suc zero) h = refl
window-slice B buf p (suc (suc n)) h = ap (◌∷◌ (get_or buf p 0)) (
    ap (λ q. window B buf q (suc n)) (fwd-next B p (omega arith))
    ∙ window-slice B buf (suc p) (suc n) (omega arith))

-- A window that does is two slices.
pub window-two_slices :
    (B : ℕ) (buf : Bytes) (p m n : ℕ)
    → p < B
    → p + m ≡ B
    → n ≤ B
    → window B buf p (m + n) ≡ slice buf p m ++ slice buf 0 n
unfolding slice
window-two_slices B buf p zero n h e k = absurd (omega arith)
window-two_slices B buf p (suc zero) n h e k = rw suc-add (
    ap (◌∷◌ (get_or buf p 0)) (
      ap (λ q. window B buf q (zero + n)) (fwd-wraps B p (omega arith))
      ∙ rw zero-add (window-slice B buf 0 n (omega arith))))
window-two_slices B buf p (suc (suc m)) n h e k = rw suc-add (
    ap (◌∷◌ (get_or buf p 0)) (
      ap (λ q. window B buf q (suc m + n)) (fwd-next B p (omega arith))
      ∙ window-two_slices B buf (suc p) (suc m) n (omega arith) (omega arith) k))
