-- ===== src/Buffer/Content/Transfer.antt =====
-- What moves between two buffers.
use yapara_c.Prelude.{
  ℕ, zero, suc, ◌%◌, ◌<◌, List, [], ◌∷◌, ◌++◌, ◌≡◌, ◌≢◌, refl, ap, sym, ◌∙◌, arith, length, take,
  drop, length-append, length-take, length-drop, take-append_of_le, take-append_of_lt,
  drop-append_of_le, drop-append_of_lt, append-nil, append_assoc,
}
use yapara_c.Prelude.Loop.{Result, ok}
use yapara_c.Buffer.Defs.{Bytes, Fragment, Buffer, Pool, advance, add_size, sub_size, uint_mod}
use yapara_c.Buffer.Transfer.{move_frags, moved_size, transfer_part, transfer_max}
use yapara_c.Buffer.Content.{chain_bytes, content, IsValid, chain_bytes-append, IsChain-append}
use yapara_c.Buffer.Content.Append.{append_lem}
use yapara_c.Buffer.Content.Moves.{Moves, move_frags-Moves, moved_size-length}

-- The destination has the bytes behind its own, the source has lost them, and they are counted.
abbrev pub Transferred : ℕ → Buffer → Buffer → ℕ → Buffer → Buffer → Type 0
Transferred n dst src rv dst' src' =
    (content dst' ≡ content dst ++ take n (content src))
    × (content src' ≡ drop n (content src))
    × (rv ≡ length (take n (content src)) % uint_mod)
    × IsValid dst'
    × IsValid src'

abbrev joined_dst : Buffer → List Fragment → Buffer
joined_dst dst moved = record {
  size = add_size dst.size (moved_size moved);
  frags = dst.frags ++ moved;
}

abbrev left_src : Buffer → ℕ → List Fragment → Buffer
left_src src rv rest = record { size = sub_size src.size rv; frags = rest }

module _ (n left : ℕ) (moved rest : List Fragment) (src : Buffer)
    (m : Moves n src.frags (moved, left, rest)) where
  take-Moves : take n (content src) ≡ chain_bytes moved ++ take left (chain_bytes rest)
  take-Moves =
      sym (ap (take n) m.0)
      ∙ take-append_of_le n (chain_bytes moved) (chain_bytes rest) (omega (arith, m.1))
      ∙ ap (λ k. chain_bytes moved ++ take k (chain_bytes rest)) (omega (arith, m.1))

  drop-Moves : drop n (content src) ≡ drop left (chain_bytes rest)
  drop-Moves =
      sym (ap (drop n) m.0)
      ∙ drop-append_of_le n (chain_bytes moved) (chain_bytes rest) (omega (arith, m.1))
      ∙ ap (λ k. drop k (chain_bytes rest)) (omega (arith, m.1))

  -- The source keeps its size right.
  left_src-size :
      (rv : ℕ) (frags : List Fragment)
      → IsValid src
      → rv ≡ length (take n (content src)) % uint_mod
      → chain_bytes frags ≡ drop n (content src)
      → sub_size src.size rv ≡ length (chain_bytes frags) % uint_mod
  left_src-size rv frags w count bytes = omega (
    arith,
    w.size,
    count,
    ap length bytes,
    length-take n (content src),
    length-drop n (content src),
  )

  joined_dst-IsValid :
      (dst : Buffer)
      → IsValid dst
      → IsValid src
      → (content (joined_dst dst moved) ≡ content dst ++ chain_bytes moved)
        × IsValid (joined_dst dst moved)
  joined_dst-IsValid dst v w =
      let bytes = chain_bytes-append dst.frags moved in
      (
        bytes,
        record {
          chain = IsChain-append dst.frags moved v.chain (m.3 w.chain).0;
          size = omega (
            arith,
            v.size,
            moved_size-length moved,
            ap length bytes,
            length-append (content dst) (chain_bytes moved),
          );
        },
      )

  -- Only whole fragments are moved.
  Transferred-whole :
      (dst : Buffer)
      → IsValid dst
      → IsValid src
      → take left (chain_bytes rest) ≡ []
      → drop left (chain_bytes rest) ≡ chain_bytes rest
      → Transferred n dst src
          (moved_size moved)
          (joined_dst dst moved)
          (left_src src (moved_size moved) rest)
  Transferred-whole dst v w none_left same =
      let (bytes, valid) = joined_dst-IsValid dst v w in
      let taken : take n (content src) ≡ chain_bytes moved =
        take-Moves ∙ ap (λ l. chain_bytes moved ++ l) none_left ∙ append-nil (chain_bytes moved) in
      let count : moved_size moved ≡ length (take n (content src)) % uint_mod =
        moved_size-length moved ∙ ap (λ l. length l % uint_mod) (sym taken) in
      let dropped : chain_bytes rest ≡ drop n (content src) = sym (drop-Moves ∙ same) in
      (
        bytes ∙ ap (λ l. content dst ++ l) (sym taken),
        dropped,
        count,
        valid,
        record {
          chain = (m.3 w.chain).1;
          size = left_src-size (moved_size moved) rest w count dropped;
        },
      )

drop-ne-nil : (n : ℕ) (xs : Bytes) → n < length xs → drop n xs ≢ []
drop-ne-nil n xs h q = omega (arith, length-drop n xs, ap length q)

-- Part of one more fragment is copied.
Transferred-part :
    (n left : ℕ) (moved frags : List Fragment) (f : Fragment) (dst src b : Buffer)
    → Moves n src.frags (moved, suc left, f ∷ frags)
    → IsValid src
    → IsValid b
    → content b ≡ (content dst ++ chain_bytes moved) ++ take (suc left) f.bytes
    → let rv = add_size (moved_size moved) (suc left) in
      Transferred n dst src rv b (left_src src rv (advance (suc left) f ∷ frags))
Transferred-part n left moved frags f dst src b m w valid bytes =
    let rest = f ∷ frags in
    let rv = add_size (moved_size moved) (suc left) in
    let short : suc left < length f.bytes = m.2 in
    let taken : take n (content src) ≡ chain_bytes moved ++ take (suc left) f.bytes =
      take-Moves n (suc left) moved rest src m
      ∙ ap (λ l. chain_bytes moved ++ l)
          (take-append_of_lt (suc left) f.bytes (chain_bytes frags) (omega (arith, short))) in
    let count : rv ≡ length (take n (content src)) % uint_mod = omega (
      arith,
      short,
      moved_size-length moved,
      ap length taken,
      length-append (chain_bytes moved) (take (suc left) f.bytes),
      length-take (suc left) f.bytes,
    ) in
    let dropped : drop (suc left) f.bytes ++ chain_bytes frags ≡ drop n (content src) = sym (
      drop-Moves n (suc left) moved rest src m
      ∙ drop-append_of_lt (suc left) f.bytes (chain_bytes frags) (omega (arith, short))) in
    let chain = (m.3 w.chain).1 in
    (
      bytes
          ∙ append_assoc (content dst) (chain_bytes moved) (take (suc left) f.bytes)
          ∙ ap (λ l. content dst ++ l) (sym taken),
      dropped,
      count,
      valid,
      record {
        chain = (
          drop-ne-nil (suc left) f.bytes short,
          omega (arith, short, length-drop (suc left) f.bytes, chain.1),
          chain.2,
        );
        size =
            left_src-size n (suc left) moved rest src m rv (advance (suc left) f ∷ frags) w count
              dropped;
      },
    )

drop-nil : (n : ℕ) → drop n (chain_bytes []) ≡ chain_bytes []
drop-nil zero = refl
drop-nil (suc n) = refl

take-nil : (n : ℕ) → take n (chain_bytes []) ≡ []
take-nil zero = refl
take-nil (suc n) = refl

module _ (frag_cap : ℕ) (positive : 0 < frag_cap) where
  -- Some result with these properties is returned.
  abbrev pub TransfersTo :
      ℕ → Buffer → Buffer → Result (Unit {0}) (ℕ × Buffer × Buffer × Pool) → Type 0
  TransfersTo n dst src result =
      (rv : ℕ) × (dst' : Buffer) × (src' : Buffer) × (pool' : Pool) × (result
        ≡ ok (rv, dst', src', pool'))
      × Transferred n dst src rv dst' src'

  transfer_part-TransfersTo :
      (n left : ℕ) (moved rest : List Fragment) (dst src : Buffer) (pool : Pool)
      → IsValid dst
      → IsValid src
      → Moves n src.frags (moved, left, rest)
      → TransfersTo n dst src
          (transfer_part frag_cap left rest (moved_size moved) (joined_dst dst moved) src pool)
  unfolding transfer_part
  transfer_part-TransfersTo n left moved [] dst src pool v w m = (
    _,
    _,
    _,
    _,
    refl,
    Transferred-whole n left moved [] src m dst v w (take-nil left) (drop-nil left),
  )
  transfer_part-TransfersTo n zero moved (f ∷ frags) dst src pool v w m =
      (_, _, _, _, refl, Transferred-whole n zero moved (f ∷ frags) src m dst v w refl refl)
  transfer_part-TransfersTo n (suc left) moved (f ∷ frags) dst src pool v w m =
      let (bytes, valid) = joined_dst-IsValid n (suc left) moved (f ∷ frags) src m dst v w in
      let (b, pool', returned, appended, b-valid) =
        append_lem frag_cap positive (take (suc left) f.bytes) (joined_dst dst moved) pool valid in
      (
        add_size (moved_size moved) (suc left),
        b,
        left_src src (add_size (moved_size moved) (suc left)) (advance (suc left) f ∷ frags),
        pool',
        rw returned refl,
        Transferred-part n left moved frags f dst src b m w b-valid
            (appended ∙ ap (λ l. l ++ take (suc left) f.bytes) bytes),
      )

  -- `yc_buffer_transfer_max` between two valid buffers returns: the first bytes of the source, up to
  -- the limit, stand behind those of the destination and are gone from the source, their number is
  -- the result, and both buffers are valid.
  pub transfer_max_lem :
      (n : ℕ) (dst src : Buffer) (pool : Pool)
      → IsValid dst
      → IsValid src
      → TransfersTo n dst src (transfer_max frag_cap n dst src pool)
  unfolding transfer_max
  transfer_max_lem n dst src pool v w =
      let r = move_frags n src.frags in
      transfer_part-TransfersTo n r.1 r.0 r.2 dst src pool v w (move_frags-Moves n src.frags)
