-- ===== src/Buffer/Content.antt =====
-- The operations of src/yc-buffer.c against the list of the buffer's bytes.
pub mod Read
pub mod Search
pub mod Append
pub mod Moves
pub mod Transfer
pub mod Whole
pub mod Small
use yapara_c.Prelude.{
  ℕ, ◌+◌, ◌%◌, ◌≤◌, ◌<◌, List, [], ◌∷◌, ◌++◌, ◌≡◌, ◌≢◌, refl, ap, sym, ◌∙◌, append_assoc, length,
  length-append, arith,
}
use yapara_c.Buffer.Defs.{Bytes, Fragment, Buffer, uint_mod}

-- All bytes of a chain, in order.
abbrev pub chain_bytes : List Fragment → Bytes
chain_bytes [] = []
chain_bytes (f ∷ frags) = f.bytes ++ chain_bytes frags

abbrev pub content : Buffer → Bytes
content b = chain_bytes b.frags

-- No fragment is empty or longer than its allocation.
abbrev pub IsChain : List Fragment → Type 0
IsChain [] = Unit
IsChain (f ∷ frags) =
    (f.bytes ≢ []) × (f.buf_start + length f.bytes ≤ f.buf_max_size) × IsChain frags

-- What `verify_buffer` checks, and that every fragment keeps within its allocation.
pub record IsValid (b : Buffer) : Type 0 where
  pub chain : IsChain b.frags
  pub size : b.size ≡ length (content b) % uint_mod

pub chain_bytes-append :
    (xs ys : List Fragment) → chain_bytes (xs ++ ys) ≡ chain_bytes xs ++ chain_bytes ys
chain_bytes-append [] ys = refl
chain_bytes-append (f ∷ xs) ys =
    ap (λ l. f.bytes ++ l) (chain_bytes-append xs ys)
    ∙ sym (append_assoc f.bytes (chain_bytes xs) (chain_bytes ys))

pub IsChain-append : (xs ys : List Fragment) → IsChain xs → IsChain ys → IsChain (xs ++ ys)
IsChain-append [] ys h k = k
IsChain-append (f ∷ xs) ys h k = (h.0, h.1, IsChain-append xs ys h.2 k)
