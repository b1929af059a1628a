-- ===== src/Term/Keys.antt =====
-- The decoding of key sequences, which may arrive in pieces.
pub mod Sequences
pub mod Pending
use yapara_c.Prelude.{
  ℕ, zero, suc, ◌+◌, ◌-◌, ◌*◌, ◌%◌, ◌^◌, Bool, true, false, not, ◌&&◌, ◌||◌, List, [], ◌∷◌, ◌++◌,
  Option, none, some, ltb, leb, ◌==◌, if◌then◌else◌, length, drop,
}
use yapara_c.Prelude.Loop.{Flow, again, stop, Result, ok, ◌>>=◌, run}
use yapara_c.Term.Utf8.{Bytes}

-- `YcTermKeyType`
pub data KeyType : Type 0 where
  char : KeyType
  up : KeyType
  down : KeyType
  left : KeyType
  right : KeyType
  page_up : KeyType
  page_down : KeyType
  home : KeyType
  end : KeyType
  enter : KeyType
  backspace : KeyType
  escape : KeyType

-- `YcTermKey`
pub record Key : Type 0 where
  pub type : KeyType
  pub ch : ℕ
  pub ctrl : Bool

abbrev pub max_pending : ℕ
max_pending = 32

abbrev pub esc : ℕ
esc = 27

abbrev pub special : KeyType → Key
special type = record { type = type; ch = 0; ctrl = false }

-- A byte that begins no sequence.
unfoldable pub plain_key : ℕ → Key
plain_key c =
    if c == b'\r' || c == b'\n'
    then special enter
    else if c == 0x7f || c == 0x08
    then special backspace
    else if ltb c 0x20
    then record { type = char; ch = c + b'a' - 1; ctrl = true }
    else record { type = char; ch = c; ctrl = false }

-- The bytes used, and the key that is emitted, if any.
abbrev pub Decoded : Type 0
Decoded = ℕ × Option Key

abbrev pub is_digit : ℕ → Bool
is_digit c = leb b'0' c && leb c b'9'

-- The key of a number, and none where the number means nothing.
unfoldable pub numbered_key : ℕ → Option Key
numbered_key value =
    if value == 1 || value == 7
    then some (special home)
    else if value == 4 || value == 8
    then some (special end)
    else if value == 5
    then some (special page_up)
    else if value == 6
    then some (special page_down)
    else none

-- From index `i` on, with the digits' value so far: more digits, then a tilde.
unfoldable pub decode_digits : ℕ → ℕ → Bytes → Decoded
decode_digits i value [] = (0, none)
decode_digits i value (c ∷ p) =
    let more = decode_digits (suc i) ((value * 10 + (c - b'0')) % 2 ^ 32) p in
    if is_digit c then more else if c == b'~' then (suc i, numbered_key value) else (suc i, none)

-- The third byte of a sequence, with what follows it.
unfoldable pub decode_third : ℕ → Bytes → Decoded
decode_third c p =
    if c == b'A'
    then (3, some (special up))
    else if c == b'B'
    then (3, some (special down))
    else if c == b'C'
    then (3, some (special right))
    else if c == b'D'
    then (3, some (special left))
    else if c == b'H'
    then (3, some (special home))
    else if c == b'F'
    then (3, some (special end))
    else if is_digit c
    then decode_digits 2 0 (c ∷ p)
    else (3, none)

-- What follows an ESC.
unfoldable pub decode_escape : Bytes → Decoded
decode_escape [] = (0, none)
decode_escape (c ∷ []) =
    if not (c == b'[') && not (c == b'O') then (1, some (special escape)) else (0, none)
decode_escape (c ∷ d ∷ p) =
    if not (c == b'[') && not (c == b'O') then (1, some (special escape)) else decode_third d p

-- `decode_one`
unfoldable pub decode_one : Bytes → Decoded
decode_one [] = (0, none)
decode_one (c ∷ p) = if c == esc then decode_escape p else (1, some (plain_key c))

-- The keys delivered, in order, and what is held. The callback is present and does not feed input.
pub record Input : Type 0 where
  pub pending : Bytes
  pub keys : List Key

abbrev pub deliver : Option Key → List Key → List Key
deliver none keys = keys
deliver (some key) keys = keys ++ key ∷ []

-- One round of the inner loop.
unfoldable pub drain_step : Input → Flow (Unit {0}) Input
drain_step s =
    let (used, key) = decode_one s.pending in
    let rest : Input = record { pending = drop used s.pending; keys = deliver key s.keys } in
    if used == 0
    then stop s
    else if length (drop used s.pending) == 0
    then stop rest
    else again rest

-- A byte that arrives.
unfoldable pub feed_byte : ℕ → Input → Result (Unit {0}) Input
feed_byte c s =
    let held = if length s.pending == max_pending then [] else s.pending in
    run (λ t. length t.pending) drain_step (record { pending = held ++ c ∷ []; keys = s.keys })

-- `yc_term_feed_input`
unfoldable pub feed_input : Bytes → Input → Result (Unit {0}) Input
feed_input [] s = ok s
feed_input (c ∷ bytes) s = do s' ← feed_byte c s; feed_input bytes s'
