-- ===== src/Buffer/Content/Read.antt =====
-- Reading, peeking and discarding take the first bytes of the buffer.

use native.Mathlib.Decide.{dec_le}
use yapara_c.Prelude.{
  ℕ, zero, suc, ◌-◌, ◌≤◌, ◌<◌, List, [], ◌∷◌, ◌++◌, ◌≡◌, ◌≢◌, refl, ap, sym, ◌∙◌, arith, length,
  take, drop, length-append, length-take, length-drop, take-append_of_le, take-append_of_lt,
  drop-append_of_le, drop-append_of_lt,
}
use yapara_c.Buffer.Defs.{
  Bytes, Fragment, Buffer, Pool, advance, recycle, read_frags, read, peek_frags, peek,
  discard_frags, discard,
}
use yapara_c.Buffer.Content.{chain_bytes, content, IsChain, IsValid}

drop-ne-nil : (n : ℕ) (xs : Bytes) → n < length xs → drop n xs ≢ []
drop-ne-nil n xs h q = omega (arith, length-drop n xs, ap length q)

-- What the loop of `yc_buffer_read` copies and leaves.
abbrev Reads : ℕ → List Fragment → Bytes × List Fragment × Pool → Type 0
Reads n frags (copied, rest, pool) =
    (copied ≡ take n (chain_bytes frags))
    × (chain_bytes rest ≡ drop n (chain_bytes frags))
    × (IsChain frags → IsChain rest)

-- The three ways of a round.
Reads-none :
    (f : Fragment) (frags : List Fragment) (pool : Pool) → Reads 0 (f ∷ frags) ([], f ∷ frags, pool)
Reads-none f frags pool = (refl, refl, λ v. v)

Reads-whole :
    (f : Fragment) (frags : List Fragment) (n : ℕ) (r : Bytes × List Fragment × Pool)
    → length f.bytes ≤ n
    → Reads (n - length f.bytes) frags r
    → Reads n (f ∷ frags) (f.bytes ++ r.0, r.1, r.2)
Reads-whole f frags n r h (copied, left, keep) = (
  ap (λ l. f.bytes ++ l) copied ∙ sym (take-append_of_le n f.bytes (chain_bytes frags) h),
  left ∙ sym (drop-append_of_le n f.bytes (chain_bytes frags) h),
  λ v. keep v.2,
)

Reads-part :
    (f : Fragment) (frags : List Fragment) (n : ℕ) (pool : Pool)
    → n < length f.bytes
    → Reads n (f ∷ frags) (take n f.bytes, advance n f ∷ frags, pool)
Reads-part f frags n pool h = (
  sym (take-append_of_lt n f.bytes (chain_bytes frags) (omega arith)),
  sym (drop-append_of_lt n f.bytes (chain_bytes frags) (omega arith)),
  λ v. (drop-ne-nil n f.bytes h, omega (arith, length-drop n f.bytes, v.1), v.2),
)

read_frags-whole :
    (f : Fragment) (frags : List Fragment) (n : ℕ) (pool : Pool)
    → length f.bytes ≤ suc n
    → read_frags (suc n) (f ∷ frags) pool ≡ (
        let r = read_frags (suc n - length f.bytes) frags (recycle f pool) in
        (f.bytes ++ r.0, r.1, r.2))
unfolding read_frags
read_frags-whole f frags n pool h = ground arith

read_frags-part :
    (f : Fragment) (frags : List Fragment) (n : ℕ) (pool : Pool)
    → suc n < length f.bytes
    → read_frags (suc n) (f ∷ frags) pool ≡ (take (suc n) f.bytes, advance (suc n) f ∷ frags, pool)
unfolding read_frags
read_frags-part f frags n pool h = ground arith

read_frags-Reads :
    (frags : List Fragment) (n : ℕ) (pool : Pool) → Reads n frags (read_frags n frags pool)
read_frags-Reads [] zero pool = unfold read_frags in (refl, refl, λ v. v)
read_frags-Reads [] (suc n) pool = unfold read_frags in (refl, refl, λ v. v)
read_frags-Reads (f ∷ frags) zero pool = unfold read_frags in Reads-none f frags pool
read_frags-Reads (f ∷ frags) (suc n) pool = elim (dec_le (length f.bytes) (suc n)) [
  | yes h ↦ rw (read_frags-whole f frags n pool h) (
      Reads-whole f frags (suc n) (read_frags (suc n - length f.bytes) frags (recycle f pool)) h
        (read_frags-Reads frags (suc n - length f.bytes) (recycle f pool)))
  | no h ↦
      rw (read_frags-part f frags n pool (omega arith))
        (Reads-part f frags (suc n) pool (omega arith))
]

-- `yc_buffer_read` copies the first `max_length` bytes, or all where there are fewer, removes
-- exactly these from the buffer, and leaves a valid buffer.
pub read_lem :
    (n : ℕ) (b : Buffer) (pool : Pool)
    → IsValid b
    → let (copied, b', pool') = read n b pool in
      (copied ≡ take n (content b)) × (content b' ≡ drop n (content b)) × IsValid b'
unfolding read
read_lem n b pool v =
    let (copied, left, keep) = read_frags-Reads b.frags n pool in
    (
      copied,
      left,
      record {
        chain = keep v.chain;
        size = omega (
          arith,
          ap length copied,
          ap length left,
          length-take n (content b),
          length-drop n (content b),
        );
      },
    )

peek_frags-take : (frags : List Fragment) (n : ℕ) → peek_frags n frags ≡ take n (chain_bytes frags)
unfolding peek_frags
peek_frags-take [] zero = refl
peek_frags-take [] (suc n) = refl
peek_frags-take (f ∷ frags) zero = refl
peek_frags-take (f ∷ frags) (suc n) = ground (
  arith,
  peek_frags-take frags (suc n - length f.bytes),
  take-append_of_le (suc n) f.bytes (chain_bytes frags),
  take-append_of_lt (suc n) f.bytes (chain_bytes frags),
)

-- `yc_buffer_peek` sees what `yc_buffer_read` would copy.
pub peek-read : (n : ℕ) (b : Buffer) (pool : Pool) → peek n b ≡ (read n b pool).0
unfolding peek read
peek-read n b pool = peek_frags-take b.frags n ∙ sym (read_frags-Reads b.frags n pool).0

discard_frags-read_frags :
    (frags : List Fragment) (n : ℕ) (pool : Pool)
    → discard_frags n frags pool ≡ (let r = read_frags n frags pool in (length r.0, r.1, r.2))
unfolding discard_frags read_frags
discard_frags-read_frags [] zero pool = refl
discard_frags-read_frags [] (suc n) pool = refl
discard_frags-read_frags (f ∷ frags) zero pool = refl
discard_frags-read_frags (f ∷ frags) (suc n) pool = ground (
  arith,
  discard_frags-read_frags frags (suc n - length f.bytes) (recycle f pool),
  length-append f.bytes (read_frags (suc n - length f.bytes) frags (recycle f pool)).0,
  length-take (suc n) f.bytes,
)

-- `yc_buffer_discard` leaves the buffer and the pool that `yc_buffer_read` leaves, and returns the
-- number of bytes that it copies.
pub discard-read :
    (n : ℕ) (b : Buffer) (pool : Pool)
    → discard n b pool ≡ (let r = read n b pool in (length r.0, r.1, r.2))
unfolding discard read
discard-read n b pool = rw (discard, discard_frags-read_frags b.frags n pool)
