-- ===== src/Buffer/Defs.antt =====
-- Fragments, their recycling, and the operations that add to a buffer or take from its front.
use yapara_c.Prelude.{
  ℕ, ◌+◌, ◌-◌, ◌%◌, ◌^◌, min, Bool, true, false, List, [], ◌∷◌, ◌++◌, Option, none, some, leb, ◌==◌,
  if◌then◌else◌, length, take, drop, replicate,
}
use mathlib.Core.Option
use yapara_c.Prelude.Loop.{Flow, again, stop, Result, ok, ◌>>=◌, run}

abbrev pub Bytes : Type 0
Bytes = List ℕ

-- `YcBufferFragment`. `destroy` stands for the callback with its data.
pub record Fragment : Type 0 where
  pub bytes : Bytes
  pub buf_start : ℕ
  pub buf_max_size : ℕ
  pub is_foreign : Bool
  pub destroy : Option ℕ

-- `unsigned size`, and the chain.
pub record Buffer : Type 0 where
  pub size : ℕ
  pub frags : List Fragment

-- The allocator's state: how many fragments stand on the recycling stack, and the destroy
-- callbacks made so far, in order.
pub record Pool : Type 0 where
  pub num_recycled : ℕ
  pub destroyed : List ℕ

abbrev pub max_recycled : ℕ
max_recycled = 16

abbrev pub uint_mod : ℕ
uint_mod = 2 ^ 32

-- `size += n` and `size -= n` on `unsigned`
abbrev pub add_size : ℕ → ℕ → ℕ
add_size s n = (s + n) % uint_mod

abbrev pub sub_size : ℕ → ℕ → ℕ
sub_size s n = (s + uint_mod - n % uint_mod) % uint_mod

-- `yc_buffer_fragment_avail`
unfoldable pub avail : Fragment → ℕ
avail f = f.buf_max_size - f.buf_start - length f.bytes

-- The pool once `new_native_fragment` has taken from it.
unfoldable pub take_recycled : Pool → Pool
take_recycled pool = record pool { num_recycled = pool.num_recycled - 1 }

-- `new_native_fragment`; the argument is BUF_CHUNK_SIZE less the size of the header.
unfoldable pub new_native_fragment : ℕ → Fragment
new_native_fragment frag_cap = record {
  bytes = [];
  buf_start = 0;
  buf_max_size = frag_cap;
  is_foreign = false;
  destroy = none;
}

-- `new_foreign_fragment`
unfoldable pub new_foreign_fragment : Bytes → Option ℕ → Fragment
new_foreign_fragment ptr destroy = record {
  bytes = ptr;
  buf_start = 0;
  buf_max_size = length ptr;
  is_foreign = true;
  destroy = destroy;
}

abbrev pub call_destroy : Option ℕ → Pool → Pool
call_destroy none pool = pool
call_destroy (some d) pool = record pool { destroyed = pool.destroyed ++ d ∷ [] }

-- `recycle`
unfoldable pub recycle : Fragment → Pool → Pool
recycle f pool =
    if f.is_foreign
    then call_destroy f.destroy pool
    else if leb max_recycled pool.num_recycled
    then pool
    else record pool { num_recycled = pool.num_recycled + 1 }

-- `yc_buffer_init`
unfoldable pub init : Buffer
init = record { size = 0; frags = [] }

-- `yc_buffer_fragment_avail (buffer->last_frag)`, and 0 where there is none
unfoldable pub last_avail : List Fragment → ℕ
last_avail [] = 0
last_avail (f ∷ []) = avail f
last_avail (f ∷ g ∷ frags) = last_avail (g ∷ frags)

-- `memcpy` to the end of the last fragment.
unfoldable pub fill_last : List Fragment → Bytes → List Fragment
fill_last [] new = []
fill_last (f ∷ []) new = record f { bytes = f.bytes ++ new } ∷ []
fill_last (f ∷ g ∷ frags) new = f ∷ fill_last (g ∷ frags) new

-- The variables of the loop of `yc_buffer_append`: the chain, the data left, and the pool.
pub record AppendState : Type 0 where
  pub frags : List Fragment
  pub left : Bytes
  pub pool : Pool

-- A bound on the rounds left: two for each byte, and one to add a fragment.
unfoldable pub rounds_left : AppendState → ℕ
rounds_left s = length s.left + length s.left + (if last_avail s.frags == 0 then 1 else 0)

module _ (frag_cap : ℕ) where
  -- A fragment with room at the end of the chain: the last, or a new one.
  unfoldable pub make_room : List Fragment → Pool → List Fragment × Pool
  make_room frags pool =
      if last_avail frags == 0
      then (frags ++ new_native_fragment frag_cap ∷ [], take_recycled pool)
      else (frags, pool)

  -- `avail`, which is taken before `last_frag` moves on to a new fragment.
  unfoldable pub round_avail : List Fragment → ℕ
  round_avail [] = avail (new_native_fragment frag_cap)
  round_avail (f ∷ frags) = last_avail (f ∷ frags)

  -- A round of the loop. Where the last fragment is full it only adds one, and the next fills it.
  unfoldable pub append_step : AppendState → Flow (Unit {0}) AppendState
  append_step s =
      let (frags, pool) = make_room s.frags s.pool in
      let n = min (round_avail s.frags) (length s.left) in
      if length s.left == 0
      then stop s
      else again
          (record { frags = fill_last frags (take n s.left); left = drop n s.left; pool = pool })

  -- `yc_buffer_append`
  unfoldable pub append : Bytes → Buffer → Pool → Result (Unit {0}) (Buffer × Pool)
  append new b pool = do
    s ← run rounds_left append_step (record { frags = b.frags; left = new; pool = pool })
    ok (record { size = add_size b.size (length new); frags = s.frags }, s.pool)

  -- `yc_buffer_append_repeated_byte`; its loop is that of `yc_buffer_append` with `memset`.
  unfoldable pub append_repeated_byte : ℕ → ℕ → Buffer → Pool → Result (Unit {0}) (Buffer × Pool)
  append_repeated_byte count byte = append (replicate count byte)

  -- `yc_buffer_append_string0`; the string comes without its NUL.
  unfoldable pub append_string0 : Bytes → Buffer → Pool → Result (Unit {0}) (Buffer × Pool)
  append_string0 string = append (string ++ 0 ∷ [])

-- `yc_buffer_append_foreign`
unfoldable pub append_foreign : Bytes → Option ℕ → Buffer → Pool → Buffer × Pool
append_foreign [] destroy b pool = (b, call_destroy destroy pool)
append_foreign (c ∷ new) destroy b pool = (
  record {
    size = add_size b.size (length (c ∷ new));
    frags = b.frags ++ new_foreign_fragment (c ∷ new) destroy ∷ [];
  },
  pool,
)

-- The fragment with its first `n` bytes taken.
abbrev pub advance : ℕ → Fragment → Fragment
advance n f = record f { bytes = drop n f.bytes; buf_start = f.buf_start + n }

-- The loop of `yc_buffer_read`, on the chain: what was copied, the chain left, the pool.
unfoldable pub read_frags : ℕ → List Fragment → Pool → Bytes × List Fragment × Pool
read_frags n [] pool = ([], [], pool)
read_frags n (f ∷ frags) pool =
    let (copied, rest, pool') = read_frags (n - length f.bytes) frags (recycle f pool) in
    if n == 0
    then ([], f ∷ frags, pool)
    else if leb (length f.bytes) n
    then (f.bytes ++ copied, rest, pool')
    else (take n f.bytes, advance n f ∷ frags, pool)

-- `yc_buffer_read`: the bytes written to `data`, whose number is the result.
unfoldable pub read : ℕ → Buffer → Pool → Bytes × Buffer × Pool
read max_length b pool =
    let (copied, frags, pool') = read_frags max_length b.frags pool in
    (copied, record { size = sub_size b.size (length copied); frags = frags }, pool')

-- `yc_buffer_peek`
unfoldable pub peek_frags : ℕ → List Fragment → Bytes
peek_frags n [] = []
peek_frags n (f ∷ frags) =
    let rest = peek_frags (n - length f.bytes) frags in
    if n == 0 then [] else if leb (length f.bytes) n then f.bytes ++ rest else take n f.bytes

unfoldable pub peek : ℕ → Buffer → Bytes
peek max_length b = peek_frags max_length b.frags

-- `yc_buffer_discard`: the number of bytes, the chain and the pool.
unfoldable pub discard_frags : ℕ → List Fragment → Pool → ℕ × List Fragment × Pool
discard_frags n [] pool = (0, [], pool)
discard_frags n (f ∷ frags) pool =
    let (rv, rest, pool') = discard_frags (n - length f.bytes) frags (recycle f pool) in
    if n == 0
    then (0, f ∷ frags, pool)
    else if leb (length f.bytes) n
    then (length f.bytes + rv, rest, pool')
    else (n, advance n f ∷ frags, pool)

unfoldable pub discard : ℕ → Buffer → Pool → ℕ × Buffer × Pool
discard max_discard b pool =
    let (rv, frags, pool') = discard_frags max_discard b.frags pool in
    (rv, record { size = sub_size b.size rv; frags = frags }, pool')

-- `memchr`: the index of the first `c`.
unfoldable pub memchr : ℕ → Bytes → Option ℕ
memchr c [] = none
memchr c (x ∷ xs) = if x == c then some 0 else Option.map (λ i. i + 1) (memchr c xs)

abbrev pub shift : ℕ → Option ℕ → Option ℕ
shift n none = none
shift n (some i) = some (n + i)

-- `yc_buffer_index_of`; `none` stands for -1.
unfoldable pub index_of_frags : ℕ → List Fragment → Option ℕ
index_of_frags c [] = none
index_of_frags c (f ∷ frags) =
    let later = shift (length f.bytes) (index_of_frags c frags) in
    elim (memchr c f.bytes) [ some i ↦ some i | none ↦ later ]

unfoldable pub index_of : ℕ → Buffer → Option ℕ
index_of c b = index_of_frags c b.frags

-- A string of `n` bytes, read with the delimiter behind it, which the NUL replaces; NULL where no
-- delimiter was found.
unfoldable pub read_to : Option ℕ → Buffer → Pool → Option Bytes × Buffer × Pool
read_to none b pool = (none, b, pool)
read_to (some n) b pool =
    let (line, b', pool') = read (n + 1) b pool in (some (take n line), b', pool')

-- `yc_buffer_read_line`
unfoldable pub read_line : Buffer → Pool → Option Bytes × Buffer × Pool
read_line b = read_to (index_of b'\n' b) b

-- `yc_buffer_parse_string0`
unfoldable pub parse_string0 : Buffer → Pool → Option Bytes × Buffer × Pool
parse_string0 b = read_to (index_of 0 b) b

-- The first byte that was copied; `none` stands for -1.
abbrev pub first : Bytes → Option ℕ
first [] = none
first (c ∷ p) = some c

-- `yc_buffer_peek_byte`. Only the first fragment is looked at; an empty one is read out of bounds.
unfoldable pub peek_byte : Buffer → Option ℕ
peek_byte b = elim b.frags [ [] ↦ none | f ∷ frags ↦ first f.bytes ]

-- `yc_buffer_read_byte`
unfoldable pub read_byte : Buffer → Pool → Option ℕ × Buffer × Pool
read_byte b pool = let (data_read, b', pool') = read 1 b pool in (first data_read, b', pool')

-- `yc_buffer_clear` recycles the chain; `yc_buffer_reset` empties the buffer too.
unfoldable pub clear_frags : List Fragment → Pool → Pool
clear_frags [] pool = pool
clear_frags (f ∷ frags) pool = clear_frags frags (recycle f pool)

unfoldable pub reset : Buffer → Pool → Buffer × Pool
reset b pool = (init, clear_frags b.frags pool)

-- `yc_buffer_empty_to_string`
unfoldable pub empty_to_string : Buffer → Pool → Bytes × Buffer × Pool
empty_to_string b = read b.size b
