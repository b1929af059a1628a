-- ===== src/Buffer/Content/Whole.antt =====
-- The operations on a whole buffer, and the access to one byte.
use yapara_c.Prelude.{
  ℕ, zero, suc, ◌+◌, ◌-◌, ◌%◌, ◌≤◌, ◌<◌, true, false, ◌&&◌, List, [], ◌∷◌, ◌++◌, some, ◌≡◌, ◌≢◌,
  refl, ap, sym, ◌∙◌, arith, ltb, leb, if◌then◌else◌, length, drop, get_or, length-append,
  take_of_le, append-nil, append_assoc, Bool-cases, inl, inr,
}
use yapara_c.Prelude.Loop.{ok}
use yapara_c.Buffer.Defs.{
  Bytes, Fragment, Buffer, Pool, add_size, uint_mod, init, read, empty_to_string,
}
use yapara_c.Buffer.Transfer.{
  transfer, append_frags, append_buffer, find_from, find_fragment, byte_of, get_byte_at,
}
use yapara_c.Buffer.Content.{
  chain_bytes, content, IsChain, IsValid, chain_bytes-append, IsChain-append,
}
use yapara_c.Buffer.Content.Read.{read_lem}
use yapara_c.Buffer.Content.Append.{append_lem}

nil-of_append : (xs ys : Bytes) → xs ++ ys ≡ [] → xs ≡ []
nil-of_append [] ys h = refl
nil-of_append (x ∷ xs) ys h = absurd (omega (arith, ap length h))

IsChain-nil : (frags : List Fragment) → IsChain frags → chain_bytes frags ≡ [] → frags ≡ []
IsChain-nil [] c h = refl
IsChain-nil (f ∷ frags) c h = absurd (c.0 (nil-of_append f.bytes (chain_bytes frags) h))

-- A valid buffer without bytes has no fragments and size 0.
IsValid-empty : (b : Buffer) → IsValid b → content b ≡ [] → b ≡ init
unfolding init
IsValid-empty b v h =
    let no_frags : b.frags ≡ [] = IsChain-nil b.frags v.chain h in
    let no_bytes : b.size ≡ 0 = omega (arith, v.size, ap length h) in
    ap (λ s. record { size = s; frags = b.frags }) no_bytes
    ∙ ap {A = List Fragment} (λ l. record { size = 0; frags = l }) no_frags

drop_all : (n : ℕ) (xs : Bytes) → length xs ≤ n → drop n xs ≡ []
drop_all zero [] h = refl
drop_all (suc n) [] h = refl
drop_all zero (x ∷ xs) h = absurd (omega arith)
drop_all (suc n) (x ∷ xs) h = drop_all n xs (omega arith)

-- `yc_buffer_empty_to_string` of a valid buffer of fewer than 2 ^ 32 bytes returns all its bytes
-- and leaves it as `yc_buffer_init` does.
pub empty_to_string-init :
    (b : Buffer) (pool : Pool)
    → IsValid b
    → length (content b) < uint_mod
    → let (string, b', pool') = empty_to_string b pool in (string ≡ content b) × (b' ≡ init)
unfolding empty_to_string
empty_to_string-init b pool v small =
    let (copied, left, valid) = read_lem b.size b pool v in
    let all : length (content b) ≤ b.size = omega (arith, v.size, small) in
    (
      copied ∙ take_of_le b.size (content b) all,
      IsValid-empty (read b.size b pool).1 valid (left ∙ drop_all b.size (content b) all),
    )

-- `yc_buffer_transfer` between valid buffers puts all bytes of the source behind those of the
-- destination, leaves the source as `yc_buffer_init` does, and returns the source's size.
pub transfer_lem :
    (dst src : Buffer)
    → IsValid dst
    → IsValid src
    → let (rv, dst', src') = transfer dst src in
      (rv ≡ src.size) × (content dst' ≡ content dst ++ content src) × IsValid dst' × (src' ≡ init)
unfolding transfer
transfer_lem dst src v w = by_frags src.frags w.chain w.size refl
  where
    by_frags :
        (frags : List Fragment)
        → IsChain frags
        → src.size ≡ length (chain_bytes frags) % uint_mod
        → src.frags ≡ frags
        → let moved : Buffer = record {
          size = add_size dst.size src.size;
          frags = dst.frags ++ frags;
        } in
          let r : ℕ × Buffer × Buffer = elim frags [
            | [] ↦ (src.size, dst, src)
            | f ∷ rest ↦ (src.size, moved, init)
          ] in
          (r.0 ≡ src.size)
          × (content r.1 ≡ content dst ++ chain_bytes frags)
          × IsValid r.1
          × (r.2 ≡ init)
    by_frags [] c s e =
        (refl, sym (append-nil (content dst)), v, IsValid-empty src w (ap chain_bytes e))
    by_frags (f ∷ rest) c s e =
        let bytes = chain_bytes-append dst.frags (f ∷ rest) in
        (
          refl,
          bytes,
          record {
            chain = IsChain-append dst.frags (f ∷ rest) v.chain c;
            size = omega (
              arith,
              v.size,
              s,
              ap length bytes,
              length-append (content dst) (chain_bytes (f ∷ rest)),
            );
          },
          refl,
        )

get_or-append :
    (xs ys : Bytes) (i : ℕ)
    → get_or (xs ++ ys) i 0
      ≡ (if ltb i (length xs) then get_or xs i 0 else get_or ys (i - length xs) 0)
get_or-append [] ys i = ground arith
get_or-append (x ∷ xs) ys zero = ground arith
get_or-append (x ∷ xs) ys (suc i) = ground (arith, get_or-append xs ys i)

pos-length : (xs : Bytes) → xs ≢ [] → 0 < length xs
pos-length [] h = absurd (h refl)
pos-length (x ∷ xs) h = omega arith

find_from-byte :
    (frags : List Fragment) (idx at : ℕ)
    → IsChain frags
    → at ≤ idx
    → idx < at + length (chain_bytes frags)
    → at + length (chain_bytes frags) < uint_mod
    → byte_of (find_from frags idx at) idx ≡ some (get_or (chain_bytes frags) (idx - at) 0)
unfolding find_from byte_of
find_from-byte [] idx at c low high small = absurd (omega arith)
find_from-byte (f ∷ frags) idx at c low high small =
    let len = length f.bytes in
    let whole = length-append f.bytes (chain_bytes frags) in
    let split = get_or-append f.bytes (chain_bytes frags) (idx - at) in
    let moved : add_size at len ≡ at + len = omega (arith, whole, small) in
    elim (Bool-cases (ltb at idx && leb (add_size at len) idx)) [
      | inl later ↦
          let past : ltb (idx - at) len ≡ false = ground (arith, moved) in
          let same : idx - (at + len) ≡ idx - at - len = omega arith in
          rw (later, split, past, moved, ← same)
            (find_from-byte frags idx (at + len) c.2 (ground (arith, moved)) (omega (arith, whole))
              (omega (arith, whole)))
      | inr here ↦
          let some_bytes = pos-length f.bytes c.0 in
          let inside : ltb (idx - at) len ≡ true = ground (arith, moved, some_bytes) in
          let offset : (idx + uint_mod - at % uint_mod) % uint_mod ≡ idx - at =
            omega (arith, whole, small) in
          rw (here, split, inside, offset, inside) refl
    ]

-- `yc_buffer_get_byte_at` of a valid buffer of fewer than 2 ^ 32 bytes returns the byte at an index
-- that the buffer has.
pub get_byte_at_lem :
    (b : Buffer) (idx : ℕ)
    → IsValid b
    → idx < length (content b)
    → length (content b) < uint_mod
    → get_byte_at b idx ≡ some (get_or (content b) idx 0)
unfolding get_byte_at find_fragment
get_byte_at_lem b idx v inside small =
    find_from-byte b.frags idx 0 v.chain (omega arith) (omega arith) (omega arith)
    ∙ ap (λ i. some (get_or (content b) i 0)) (omega arith)

module _ (frag_cap : ℕ) (positive : 0 < frag_cap) where
  append_frags_lem :
      (frags : List Fragment) (dst : Buffer) (pool : Pool)
      → IsValid dst
      → (b' : Buffer) × (pool' : Pool) × (append_frags frag_cap frags dst pool ≡ ok (b', pool'))
        × (content b' ≡ content dst ++ chain_bytes frags)
        × IsValid b'
  unfolding append_frags
  append_frags_lem [] dst pool v = (dst, pool, refl, sym (append-nil (content dst)), v)
  append_frags_lem (f ∷ frags) dst pool v =
      let (b, pool1, first, bytes, valid) = append_lem frag_cap positive f.bytes dst pool v in
      let (b', pool', rest, all, valid') = append_frags_lem frags b pool1 valid in
      (
        b',
        pool',
        rw first rest,
        all
            ∙ ap (λ l. l ++ chain_bytes frags) bytes
            ∙ append_assoc (content dst) f.bytes (chain_bytes frags),
        valid',
      )

  -- `yc_buffer_append_buffer` to a valid buffer returns: the bytes of the source stand behind those of
  -- the destination, which is valid, and the result is the source's size.
  pub append_buffer_lem :
      (dst src : Buffer) (pool : Pool)
      → IsValid dst
      → (b' : Buffer) × (pool' : Pool) × (append_buffer frag_cap dst src pool
          ≡ ok (src.size, b', pool'))
        × (content b' ≡ content dst ++ content src)
        × IsValid b'
  unfolding append_buffer
  append_buffer_lem dst src pool v =
      let (b', pool', returned, bytes, valid) = append_frags_lem src.frags dst pool v in
      (b', pool', rw returned refl, bytes, valid)
