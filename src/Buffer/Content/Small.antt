-- ===== src/Buffer/Content/Small.antt =====
-- The inline appends of src/yc-buffer.h.
use yapara_c.Prelude.{
  ℕ, ◌<◌, true, List, [], ◌∷◌, ◌++◌, ◌≡◌, refl, ap, sym, ◌∙◌, arith, length, length-append,
  append-nil, append_assoc, Bool-cases, inl, inr,
}
use yapara_c.Prelude.Loop.{ok}
use yapara_c.Buffer.Defs.{Bytes, Fragment, Buffer, Pool, fill_last, add_size}
use yapara_c.Buffer.Transfer.{fits_last, append_small}
use yapara_c.Buffer.Content.{chain_bytes, content, IsChain, IsValid}
use yapara_c.Buffer.Content.Append.{append_lem}

nil-of_append : (xs ys : Bytes) → xs ++ ys ≡ [] → xs ≡ []
nil-of_append [] ys h = refl
nil-of_append (x ∷ xs) ys h = absurd (omega (arith, ap length h))

-- A last fragment with room takes the bytes.
fill_last-fits :
    (frags : List Fragment) (new : Bytes)
    → IsChain frags
    → fits_last (length new) frags ≡ true
    → (chain_bytes (fill_last frags new) ≡ chain_bytes frags ++ new) × IsChain (fill_last frags new)
unfolding fits_last fill_last
fill_last-fits [] new c h = absurd (cc)
fill_last-fits (f ∷ []) new c h = (
  append-nil (f.bytes ++ new) ∙ ap (λ l. l ++ new) (sym (append-nil f.bytes)),
  ((λ q. c.0 (nil-of_append f.bytes new q)), ground (arith, length-append f.bytes new), tt),
)
fill_last-fits (f ∷ g ∷ frags) new c h =
    let (bytes, chain) = fill_last-fits (g ∷ frags) new c.2 h in
    (
      ap (λ l. f.bytes ++ l) bytes ∙ sym (append_assoc f.bytes (chain_bytes (g ∷ frags)) new),
      (c.0, c.1, chain),
    )

module _ (frag_cap : ℕ) (positive : 0 < frag_cap) where
  -- `yc_buffer_append_small` to a valid buffer returns, with the data behind the buffer's bytes and
  -- the buffer valid, whether the bytes fit the last fragment or go through `yc_buffer_append`.
  pub append_small_lem :
      (new : Bytes) (b : Buffer) (pool : Pool)
      → IsValid b
      → (b' : Buffer) × (pool' : Pool) × (append_small frag_cap new b pool ≡ ok (b', pool'))
        × (content b' ≡ content b ++ new)
        × IsValid b'
  unfolding append_small
  append_small_lem new b pool v = elim (Bool-cases (fits_last (length new) b.frags)) [
    | inl fits ↦
        let (bytes, chain) = fill_last-fits b.frags new v.chain fits in
        rw fits (
          record { size = add_size b.size (length new); frags = fill_last b.frags new },
          pool,
          refl,
          bytes,
          record {
            chain = chain;
            size = omega (arith, v.size, ap length bytes, length-append (content b) new);
          },
        )
    | inr full ↦ rw full (append_lem frag_cap positive new b pool v)
  ]
