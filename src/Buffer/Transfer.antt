-- ===== src/Buffer/Transfer.antt =====
-- The operations of src/yc-buffer.c and src/yc-buffer.h between two buffers, and those that look
-- at single bytes.
use yapara_c.Prelude.{
  ℕ, zero, suc, ◌+◌, ◌-◌, Bool, false, ◌&&◌, not, List, [], ◌∷◌, ◌++◌, Option, none, some, ltb, leb,
  ◌==◌, if◌then◌else◌, length, take, get_or,
}
use yapara_c.Prelude.Loop.{Result, ok, error, ◌>>=◌}
use yapara_c.Buffer.Defs.{
  Bytes, Fragment, Buffer, Pool, add_size, sub_size, fill_last, append, advance, init,
}

-- Whether the last fragment is native and has room for `n` more bytes. The sum of the three lengths
-- is written plainly: it is below 2 ^ 32 as long as `n` and a fragment's size are below 2 ^ 31.
unfoldable pub fits_last : ℕ → List Fragment → Bool
fits_last n [] = false
fits_last n (f ∷ []) = not f.is_foreign && leb (f.buf_start + length f.bytes + n) f.buf_max_size
fits_last n (f ∷ g ∷ frags) = fits_last n (g ∷ frags)

-- The loop of `yc_buffer_transfer_max`: the fragments that fit whole, how much is left to
-- transfer, and the fragments that stay.
unfoldable pub move_frags : ℕ → List Fragment → List Fragment × ℕ × List Fragment
move_frags n [] = ([], n, [])
move_frags n (f ∷ frags) =
    let (moved, left, rest) = move_frags (n - length f.bytes) frags in
    if leb (length f.bytes) n then (f ∷ moved, left, rest) else ([], n, f ∷ frags)

-- `rv` after the loop: the bytes of the fragments that were moved.
unfoldable pub moved_size : List Fragment → ℕ
moved_size [] = 0
moved_size (f ∷ frags) = add_size (length f.bytes) (moved_size frags)

-- `yc_buffer_transfer`: the number of bytes, the destination, and the source.
unfoldable pub transfer : Buffer → Buffer → ℕ × Buffer × Buffer
transfer dst src =
    let moved : Buffer = record {
      size = add_size dst.size src.size;
      frags = dst.frags ++ src.frags;
    } in
    elim src.frags [ [] ↦ (src.size, dst, src) | f ∷ frags ↦ (src.size, moved, init) ]

module _ (frag_cap : ℕ) where
  -- `yc_buffer_append_small`
  unfoldable pub append_small : Bytes → Buffer → Pool → Result (Unit {0}) (Buffer × Pool)
  append_small new b pool =
      if fits_last (length new) b.frags
      then ok (record { size = add_size b.size (length new); frags = fill_last b.frags new }, pool)
      else append frag_cap new b pool

  -- `yc_buffer_append_byte`
  unfoldable pub append_byte : ℕ → Buffer → Pool → Result (Unit {0}) (Buffer × Pool)
  append_byte byte = append_small (byte ∷ [])

  -- The end of `yc_buffer_transfer_max`, after the loop moved `rv` bytes: part of one more
  -- fragment is copied. The results are the number of bytes, the two buffers, and the pool.
  unfoldable pub transfer_part :
      ℕ
      → List Fragment
      → ℕ
      → Buffer
      → Buffer
      → Pool
      → Result (Unit {0}) (ℕ × Buffer × Buffer × Pool)
  transfer_part left [] rv dst src pool =
      ok (rv, dst, record { size = sub_size src.size rv; frags = [] }, pool)
  transfer_part zero (f ∷ frags) rv dst src pool =
      ok (rv, dst, record { size = sub_size src.size rv; frags = f ∷ frags }, pool)
  transfer_part (suc left) (f ∷ frags) rv dst src pool = do
    appended ← append frag_cap (take (suc left) f.bytes) dst pool
    ok (
      add_size rv (suc left),
      appended.0,
      record {
        size = sub_size src.size (add_size rv (suc left));
        frags = advance (suc left) f ∷ frags;
      },
      appended.1,
    )

  -- `yc_buffer_transfer_max`
  unfoldable pub transfer_max :
      ℕ → Buffer → Buffer → Pool → Result (Unit {0}) (ℕ × Buffer × Buffer × Pool)
  transfer_max n dst src pool =
      let (moved, left, rest) = move_frags n src.frags in
      let rv = moved_size moved in
      transfer_part left rest rv
        (record { size = add_size dst.size rv; frags = dst.frags ++ moved }) src pool

  -- The loop of `yc_buffer_append_buffer`.
  unfoldable pub append_frags : List Fragment → Buffer → Pool → Result (Unit {0}) (Buffer × Pool)
  append_frags [] dst pool = ok (dst, pool)
  append_frags (f ∷ frags) dst pool = do
    appended ← append frag_cap f.bytes dst pool
    append_frags frags appended.0 appended.1

  -- `yc_buffer_append_buffer`; `src->size` is returned too.
  unfoldable pub append_buffer : Buffer → Buffer → Pool → Result (Unit {0}) (ℕ × Buffer × Pool)
  append_buffer dst src pool = do
    appended ← append_frags src.frags dst pool
    ok (src.size, appended.0, appended.1)

  -- The end of `yc_buffer_append_buffer_max`; `error` is a failed assertion.
  unfoldable pub append_part : ℕ → List Fragment → Buffer → Pool → Result (Unit {0}) (Buffer × Pool)
  append_part zero rest dst pool = ok (dst, pool)
  append_part (suc rem) [] dst pool = error tt
  append_part (suc rem) (f ∷ frags) dst pool =
      if ltb (suc rem) (length f.bytes)
      then append frag_cap (take (suc rem) f.bytes) dst pool
      else error tt

  -- `yc_buffer_append_buffer_max`
  unfoldable pub append_buffer_max :
      ℕ → Buffer → Buffer → Pool → Result (Unit {0}) (ℕ × Buffer × Pool)
  append_buffer_max n dst src pool =
      let (whole, rem, rest) = move_frags n src.frags in
      if leb src.size n then append_buffer dst src pool else do
        copied ← append_frags whole dst pool
        appended ← append_part rem rest copied.0 copied.1
        ok (n, appended.0, appended.1)

-- `yc_buffer_find_fragment`, from a fragment whose first byte has index `frag_offset`: the
-- fragments from the one with the byte on, and the index of its first byte. Past the last
-- fragment the code follows a null pointer; here the chain is empty.
unfoldable pub find_from : List Fragment → ℕ → ℕ → List Fragment × ℕ
find_from [] offset frag_offset = ([], frag_offset)
find_from (f ∷ frags) offset frag_offset =
    let later = find_from frags offset (add_size frag_offset (length f.bytes)) in
    if ltb frag_offset offset && leb (add_size frag_offset (length f.bytes)) offset
    then later
    else (f ∷ frags, frag_offset)

unfoldable pub find_fragment : Buffer → ℕ → List Fragment × ℕ
find_fragment b offset = find_from b.frags offset 0

-- `yc_buffer_get_byte_at`; `none` is a read out of bounds.
unfoldable pub byte_of : List Fragment × ℕ → ℕ → Option ℕ
byte_of ([], frag_offset) idx = none
byte_of (f ∷ frags, frag_offset) idx =
    if ltb (sub_size idx frag_offset) (length f.bytes)
    then some (get_or f.bytes (sub_size idx frag_offset) 0)
    else none

unfoldable pub get_byte_at : Buffer → ℕ → Option ℕ
get_byte_at b idx = byte_of (find_fragment b idx) idx

-- `yc_buffer_get_last_byte`; `none` is a read out of bounds.
unfoldable pub last_byte : List Fragment → Option ℕ
last_byte [] = none
last_byte (f ∷ []) =
    if length f.bytes == 0 then none else some (get_or f.bytes (length f.bytes - 1) 0)
last_byte (f ∷ g ∷ frags) = last_byte (g ∷ frags)

unfoldable pub get_last_byte : Buffer → Option ℕ
get_last_byte b = last_byte b.frags
