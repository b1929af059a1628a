-- ===== src/CircularBuffer.antt =====
-- src/yc-circular-buffer.c: the last lines of text, in storage of fixed size.
-- Arrays are lists. `uint32_t` sums and differences wrap; those of `size_t` are of numbers below
-- 2 ^ 33 here and are written plainly. The user's data of a line is a list of `line_data_size`
-- bytes, and the NULL of an absent one is `none`.
pub mod Layout
pub mod Write
pub mod Content
pub mod Evict
pub mod Room
pub mod Slots
pub mod Add
pub mod Refine
pub mod Get
pub mod Reach
use Prim.Native.Nat.{ℕ, zero, suc, ◌+◌, ◌-◌, ◌%◌, ◌^◌}
use yapara_c.Prelude.{
  Bool, true, false, ◌&&◌, ◌||◌, not, List, [], ◌∷◌, ◌++◌, Option, none, some, ltb, leb, ◌==◌,
  if◌then◌else◌, length, get_or, set, take, drop, replicate,
}
use yapara_c.Prelude.Loop.{Flow, again, stop, throw, Result, ok, error, ◌>>=◌, run}

abbrev pub Bytes : Type 0
Bytes = List ℕ

-- `YcCircularBufferLineInfo`; `line_start` is a field of 31 bits.
pub record LineInfo : Type 0 where
  pub is_truncated : Bool
  pub line_start : ℕ

-- `struct YcCircularBuffer`; `line_data` is the list of its slots.
pub record CircularBuffer : Type 0 where
  pub buffer_size : ℕ
  pub buf : Bytes
  pub write_pos : ℕ
  pub max_lines : ℕ
  pub max_line_length : ℕ
  pub write_line_index : ℕ
  pub lines : List LineInfo
  pub line_data : List Bytes
  pub buf_occupancy : ℕ
  pub num_lines : ℕ
  pub line_data_size : ℕ
  pub utf8_sensitive_truncation : Bool

-- `YcCircularBufferNewOptions`
pub record NewOptions : Type 0 where
  pub buffer_size : ℕ
  pub max_line_length : ℕ
  pub max_lines : ℕ
  pub line_data_size : ℕ
  pub utf8_sensitive_truncation : Bool

-- The three blocks that `yc_malloc` returns, with whatever stands in them.
pub record Storage : Type 0 where
  pub buf : Bytes
  pub lines : List LineInfo
  pub line_data : List Bytes

-- `yc_circular_buffer_new`; `none` is the failed assertion.
unfoldable pub new : NewOptions → Storage → Option CircularBuffer
new o storage =
    if leb o.max_line_length o.buffer_size
    then some (record {
      buffer_size = o.buffer_size;
      buf = storage.buf;
      write_pos = 0;
      max_lines = o.max_lines;
      max_line_length = o.max_line_length;
      write_line_index = 0;
      lines = storage.lines;
      line_data = storage.line_data;
      buf_occupancy = 0;
      num_lines = 0;
      line_data_size = o.line_data_size;
      utf8_sensitive_truncation = o.utf8_sensitive_truncation;
    })
    else none

-- `uint32_t` addition and subtraction
abbrev pub add32 : ℕ → ℕ → ℕ
add32 a b = (a + b) % 2 ^ 32

abbrev pub sub32 : ℕ → ℕ → ℕ
sub32 a b = (a + 2 ^ 32 - b) % 2 ^ 32

-- `is_utf8_initial_char`, of a byte: the top bit is clear, or the two top bits are set.
unfoldable pub is_utf8_initial_char : ℕ → Bool
is_utf8_initial_char c = ltb c 128 || leb 192 c

-- `while (len > 0 && !is_utf8_initial_char (text[len])) len--;`
unfoldable pub back_to_initial : Bytes → ℕ → ℕ
back_to_initial text zero = zero
back_to_initial text (suc len) =
    let shorter = back_to_initial text len in
    if is_utf8_initial_char (get_or text (suc len) 0) then suc len else shorter

-- How many bytes of the text are kept.
unfoldable pub kept_length : CircularBuffer → Bytes → ℕ
kept_length r text =
    if ltb r.max_line_length (length text)
    then (if r.utf8_sensitive_truncation
        then back_to_initial text r.max_line_length
        else r.max_line_length)
    else length text

-- `lines[i]`; the caller's index is in range.
abbrev pub line_at : CircularBuffer → ℕ → LineInfo
line_at r i = get_or r.lines i (record { is_truncated = false; line_start = 0 })

-- `i = write_line_index + max_lines - n; if (i >= max_lines) i -= max_lines;`
unfoldable pub slot_back : CircularBuffer → ℕ → ℕ
slot_back r n =
    let i = sub32 (add32 r.write_line_index r.max_lines) n in
    if leb r.max_lines i then sub32 i r.max_lines else i

-- Where the line in slot `i` ends, if it is not the newest: the start of the next.
unfoldable pub next_start : CircularBuffer → ℕ → ℕ
next_start r i =
    if i + 1 == r.max_lines then (line_at r 0).line_start else (line_at r (i + 1)).line_start

-- The length of the oldest line, from its ends.
unfoldable pub oldest_line_len : CircularBuffer → ℕ → ℕ → ℕ
oldest_line_len r start end_pos =
    if start == end_pos
    then (if r.num_lines == 1 then r.buf_occupancy else 0)
    else if ltb start end_pos
    then sub32 end_pos start
    else sub32 (add32 end_pos r.buffer_size) start

-- The loop's variables: the buffer, and `n_evicted`.
pub record EvictState : Type 0 where
  pub ring : CircularBuffer
  pub n_evicted : ℕ

-- The body of the loop: the oldest line is dropped.
unfoldable pub drop_oldest : CircularBuffer → CircularBuffer
drop_oldest r =
    let i = slot_back r r.num_lines in
    let end_pos = if r.num_lines == 1 then r.write_pos else next_start r i in
    record r {
      num_lines = r.num_lines - 1;
      buf_occupancy = sub32 r.buf_occupancy (oldest_line_len r (line_at r i).line_start end_pos);
    }

-- One round of the loop that makes room for `len` bytes; `throw` is the failed assertion.
unfoldable pub evict_step : ℕ → EvictState → Flow (Unit {0}) EvictState
evict_step len s =
    if ltb s.ring.buffer_size (len + s.ring.buf_occupancy) || s.ring.max_lines == s.ring.num_lines
    then (if s.ring.num_lines == 0
        then throw tt
        else again (record { ring = drop_oldest s.ring; n_evicted = add32 s.n_evicted 1 }))
    else stop s

unfoldable pub evict : ℕ → CircularBuffer → Result (Unit {0}) EvictState
evict len r = run (λ s. s.ring.num_lines) (evict_step len) (record { ring = r; n_evicted = 0 })

-- `memcpy` into an array at index `at`.
unfoldable pub memcpy : Bytes → ℕ → Bytes → Bytes
memcpy dst at [] = dst
memcpy dst at (c ∷ text) = memcpy (set dst at c) (suc at) text

-- The bytes that are put at `write_pos`, in one part or two, and where the next go.
unfoldable pub write_text : CircularBuffer → Bytes → CircularBuffer
write_text r text =
    let len = length text in
    if ltb (r.write_pos + len) r.buffer_size
    then record r { buf = memcpy r.buf r.write_pos text; write_pos = r.write_pos + len }
    else if r.write_pos + len == r.buffer_size
    then record r { buf = memcpy r.buf r.write_pos text; write_pos = 0 }
    else (let piece1_size = r.buffer_size - r.write_pos in
        record r {
          buf = memcpy (memcpy r.buf r.write_pos (take piece1_size text)) 0 (drop piece1_size text);
          write_pos = len - piece1_size;
        })

-- The data of a line: the caller's, or zeroes.
unfoldable pub data_slot : CircularBuffer → Option Bytes → Bytes
data_slot r none = replicate r.line_data_size 0
data_slot r (some given) = take r.line_data_size given

-- The line's record and data go to the slot at `write_line_index`, which moves on.
unfoldable pub add_record : CircularBuffer → Bool → Option Bytes → CircularBuffer
add_record r truncated given =
    let i = r.write_line_index in
    record r {
      lines =
          set r.lines i (record { is_truncated = truncated; line_start = r.write_pos % 2 ^ 31 });
      line_data =
          if ltb 0 r.line_data_size then set r.line_data i (data_slot r given) else r.line_data;
      write_line_index = if add32 i 1 == r.max_lines then 0 else add32 i 1;
      num_lines = add32 r.num_lines 1;
    }

-- The buffer once the line of `kept` bytes is added to it.
unfoldable pub add_line : CircularBuffer → Bytes → Bool → Option Bytes → CircularBuffer
add_line r kept truncated given =
    let r' = write_text (add_record r truncated given) kept in
    record r' { buf_occupancy = add32 r'.buf_occupancy (length kept) }

-- `yc_circular_buffer_add`: the number of lines evicted, and the buffer.
unfoldable pub add : CircularBuffer → Bytes → Option Bytes → Result (Unit {0}) (ℕ × CircularBuffer)
add r text given = do
  s ← evict (kept_length r text) r
  ok (
    s.n_evicted,
    add_line s.ring (take (kept_length r text) text) (ltb r.max_line_length (length text)) given,
  )

-- `YcCircularBufferLine`: the bytes of its two parts, and the user's data. A second part of no
-- bytes is the NULL.
pub record Line : Type 0 where
  pub first_part : Bytes
  pub second_part : Bytes
  pub truncated : Bool
  pub line_data : Bytes

-- The `n` bytes of an array from index `at` on.
unfoldable pub slice : Bytes → ℕ → ℕ → Bytes
slice buf at zero = []
slice buf at (suc n) = get_or buf at 0 ∷ slice buf (suc at) n

-- The two parts, from the start and the end of the line.
unfoldable pub line_parts : CircularBuffer → ℕ → ℕ → Bytes × Bytes
line_parts r start end_pos =
    if start == end_pos && r.num_lines == 1 && ltb 0 r.buf_occupancy
    then (if leb (start + r.buf_occupancy) r.buffer_size
        then (slice r.buf start r.buf_occupancy, [])
        else (
          slice r.buf start (r.buffer_size - start),
          slice r.buf 0 (r.buf_occupancy - (r.buffer_size - start)),
        ))
    else if leb start end_pos
    then (slice r.buf start (end_pos - start), [])
    else if end_pos == 0
    then (slice r.buf start (r.buffer_size - start), [])
    else (slice r.buf start (r.buffer_size - start), slice r.buf 0 end_pos)

-- `yc_circular_buffer_get_line`; `none` is the failed assertion.
unfoldable pub get_line : CircularBuffer → ℕ → Option Line
get_line r idx =
    let i = slot_back r (idx + 1) in
    let start = (line_at r i).line_start in
    let end_pos = if idx == 0 then r.write_pos else next_start r i in
    let parts = line_parts r start end_pos in
    if ltb idx r.num_lines
    then some (record {
      first_part = parts.0;
      second_part = parts.1;
      truncated = (line_at r i).is_truncated;
      line_data = take r.line_data_size (get_or r.line_data i []);
    })
    else none

-- `yc_circular_buffer_get_stats`
unfoldable pub get_stats : CircularBuffer → ℕ × ℕ
get_stats r = (r.num_lines, r.buf_occupancy)
