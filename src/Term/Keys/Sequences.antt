-- ===== src/Term/Keys/Sequences.antt =====
-- What the keys of a keyboard send, and that it is decoded to the keys.
use yapara_c.Prelude.{
  ℕ, ◌+◌, ◌≤◌, ◌<◌, true, false, List, [], ◌∷◌, ◌++◌, some, ◌≡◌, ◌≢◌, ◌⊎◌, inl, inr, refl, ap, sym,
  ◌∙◌, append-nil, append_assoc, arith, ◌==◌,
}
use yapara_c.Prelude.Loop.{Result, ok, error, stuck, ◌>>=◌, run}
use yapara_c.Term.Utf8.{Bytes}
use yapara_c.Term.Keys.{
  Key, char, up, down, left, right, page_up, page_down, home, end, enter, backspace, escape,
  special, esc, Input, plain_key, numbered_key, decode_digits, decode_third, decode_escape,
  decode_one, drain_step, feed_byte, feed_input,
}

-- The keys other than ESC, with the bytes that a terminal sends for each. Each byte from 0x20 on but
-- 0x7f is a key: those of a longer character come as a key each.
pub data Sends : Key → Bytes → Type 0 where
  text :
      (c : ℕ) → 0x20 ≤ c → c ≢ 0x7f → Sends (record { type = char; ch = c; ctrl = false }) (c ∷ [])
  control :
      (c : ℕ)
      → c < 0x20
      → c ≢ b'\r'
      → c ≢ b'\n'
      → c ≢ 0x08
      → c ≢ esc
      → Sends (record { type = char; ch = c + 96; ctrl = true }) (c ∷ [])
  enter_key : (c : ℕ) → (c ≡ b'\r') ⊎ (c ≡ b'\n') → Sends (special enter) (c ∷ [])
  backspace_key : (c : ℕ) → (c ≡ 0x7f) ⊎ (c ≡ 0x08) → Sends (special backspace) (c ∷ [])
  up_key : (c : ℕ) → (c ≡ b'[') ⊎ (c ≡ b'O') → Sends (special up) (esc ∷ c ∷ b'A' ∷ [])
  down_key : (c : ℕ) → (c ≡ b'[') ⊎ (c ≡ b'O') → Sends (special down) (esc ∷ c ∷ b'B' ∷ [])
  right_key : (c : ℕ) → (c ≡ b'[') ⊎ (c ≡ b'O') → Sends (special right) (esc ∷ c ∷ b'C' ∷ [])
  left_key : (c : ℕ) → (c ≡ b'[') ⊎ (c ≡ b'O') → Sends (special left) (esc ∷ c ∷ b'D' ∷ [])
  home_key : (c : ℕ) → (c ≡ b'[') ⊎ (c ≡ b'O') → Sends (special home) (esc ∷ c ∷ b'H' ∷ [])
  end_key : (c : ℕ) → (c ≡ b'[') ⊎ (c ≡ b'O') → Sends (special end) (esc ∷ c ∷ b'F' ∷ [])
  home_number :
      (d : ℕ) → (d ≡ b'1') ⊎ (d ≡ b'7') → Sends (special home) (esc ∷ b'[' ∷ d ∷ b'~' ∷ [])
  end_number : (d : ℕ) → (d ≡ b'4') ⊎ (d ≡ b'8') → Sends (special end) (esc ∷ b'[' ∷ d ∷ b'~' ∷ [])
  page_up_key : Sends (special page_up) (esc ∷ b'[' ∷ b'5' ∷ b'~' ∷ [])
  page_down_key : Sends (special page_down) (esc ∷ b'[' ∷ b'6' ∷ b'~' ∷ [])

abbrev Fed : List Key → Key → Bytes → Type 0
Fed keys key bytes =
    feed_input bytes (record { pending = []; keys = keys })
    ≡ ok (record { pending = []; keys = keys ++ key ∷ [] })

-- A byte that is a key by itself.
feed-plain :
    (c : ℕ) (keys : List Key) (key : Key) → c ≢ esc → plain_key c ≡ key → Fed keys key (c ∷ [])
unfolding feed_input feed_byte run drain_step decode_one
feed-plain c keys key h k = let plain : (c == esc) ≡ false = ground arith in rw (plain, k) refl

-- An ESC, and a bracket or an O.
feed-opening :
    (c : ℕ) (bytes : Bytes) (keys : List Key)
    → (c ≡ b'[') ⊎ (c ≡ b'O')
    → feed_input (esc ∷ c ∷ bytes) (record { pending = []; keys = keys })
      ≡ feed_input bytes (record { pending = esc ∷ c ∷ []; keys = keys })
unfolding feed_input feed_byte run drain_step decode_one decode_escape
feed-opening c bytes keys (inl e) = rw e refl
feed-opening c bytes keys (inr e) = rw e refl

-- A third byte that ends the sequence.
feed-third :
    (c d : ℕ) (keys : List Key) (key : Key)
    → (c ≡ b'[') ⊎ (c ≡ b'O')
    → decode_third d [] ≡ (3, some key)
    → Fed keys key (esc ∷ c ∷ d ∷ [])
feed-third c d keys key (inl e) h =
    feed-opening c (d ∷ []) keys (inl e)
    ∙ (unfold feed_input feed_byte run drain_step decode_one decode_escape in rw (e, h) refl)
feed-third c d keys key (inr e) h =
    feed-opening c (d ∷ []) keys (inr e)
    ∙ (unfold feed_input feed_byte run drain_step decode_one decode_escape in rw (e, h) refl)

-- The bytes of a key deliver the key, and leave nothing held.
Sends-Fed : {key : Key} {bytes : Bytes} → Sends key bytes → (keys : List Key) → Fed keys key bytes
unfolding plain_key numbered_key decode_digits decode_third
Sends-Fed (text c h k) keys = feed-plain c keys _ (ground arith) (ground arith)
Sends-Fed (control c h cr lf bs es) keys = feed-plain c keys _ es (ground arith)
Sends-Fed (enter_key c h) keys = feed-plain c keys _ (ground arith) (ground arith)
Sends-Fed (backspace_key c h) keys = feed-plain c keys _ (ground arith) (ground arith)
Sends-Fed (up_key c h) keys = feed-third c b'A' keys _ h refl
Sends-Fed (down_key c h) keys = feed-third c b'B' keys _ h refl
Sends-Fed (right_key c h) keys = feed-third c b'C' keys _ h refl
Sends-Fed (left_key c h) keys = feed-third c b'D' keys _ h refl
Sends-Fed (home_key c h) keys = feed-third c b'H' keys _ h refl
Sends-Fed (end_key c h) keys = feed-third c b'F' keys _ h refl
Sends-Fed (home_number d (inl e)) keys =
    unfold feed_input feed_byte run drain_step decode_one decode_escape in rw e refl
Sends-Fed (home_number d (inr e)) keys =
    unfold feed_input feed_byte run drain_step decode_one decode_escape in rw e refl
Sends-Fed (end_number d (inl e)) keys =
    unfold feed_input feed_byte run drain_step decode_one decode_escape in rw e refl
Sends-Fed (end_number d (inr e)) keys =
    unfold feed_input feed_byte run drain_step decode_one decode_escape in rw e refl
Sends-Fed page_up_key keys =
    unfold feed_input feed_byte run drain_step decode_one decode_escape in refl
Sends-Fed page_down_key keys =
    unfold feed_input feed_byte run drain_step decode_one decode_escape in refl

pub feed_input-append :
    (a b : Bytes) (s : Input) → feed_input (a ++ b) s ≡ (feed_input a s >>= feed_input b)
unfolding feed_input
feed_input-append [] b s = refl
feed_input-append (c ∷ a) b s = by_first (λ s'. feed_input-append a b s') (feed_byte c s)
  where
    by_first :
        ((s' : Input) → feed_input (a ++ b) s' ≡ (feed_input a s' >>= feed_input b))
        → (r : Result (Unit {0}) Input)
        → (r >>= feed_input (a ++ b)) ≡ ((r >>= feed_input a) >>= feed_input b)
    by_first ih (ok s') = ih s'
    by_first ih (error x) = refl
    by_first ih stuck = refl

-- A key of one byte.
feed-one :
    {key : Key} {bytes : Bytes} (c : ℕ)
    → Sends key bytes
    → bytes ≡ c ∷ []
    → (c ≢ esc) × (plain_key c ≡ key)
unfolding plain_key
feed-one c (text d h k) q = let e : d ≡ c = cc in (ground arith, ground arith)
feed-one c (control d h cr lf bs es) q = let e : d ≡ c = cc in (ground arith, ground arith)
feed-one c (enter_key d h) q = let e : d ≡ c = cc in (ground arith, ground arith)
feed-one c (backspace_key d h) q = let e : d ≡ c = cc in (ground arith, ground arith)
feed-one c _ q = cc

-- ESC, and a byte that does not go on with a sequence.
feed-escape :
    (c : ℕ) (keys : List Key) (key : Key)
    → c ≢ b'['
    → c ≢ b'O'
    → c ≢ esc
    → plain_key c ≡ key
    → feed_input (esc ∷ c ∷ []) (record { pending = []; keys = keys })
      ≡ ok (record { pending = []; keys = (keys ++ special escape ∷ []) ++ key ∷ [] })
unfolding feed_input feed_byte run drain_step decode_one decode_escape
feed-escape c keys key bracket o e k =
    let no_bracket : (c == b'[') ≡ false = ground arith in
    let no_o : (c == b'O') ≡ false = ground arith in
    let plain : (c == esc) ≡ false = ground arith in rw (no_bracket, no_o, plain, k) refl

-- What a sequence of keys sends. ESC is among them where a key of one byte follows that is neither
-- `[` nor `O`.
pub data SendsAll : List Key → Bytes → Type 0 where
  nothing : SendsAll [] []
  more :
      {key : Key} {keys : List Key} {bytes rest : Bytes}
      → Sends key bytes
      → SendsAll keys rest
      → SendsAll (key ∷ keys) (bytes ++ rest)
  escape_and :
      {key : Key} {keys : List Key} {c : ℕ} {rest : Bytes}
      → Sends key (c ∷ [])
      → c ≢ b'['
      → c ≢ b'O'
      → SendsAll keys rest
      → SendsAll (special escape ∷ key ∷ keys) (esc ∷ c ∷ rest)

-- Where keys are typed such that each ESC has one behind it that sends one byte, neither `[` nor `O`:
-- `yc_term_feed_input` of the bytes that a terminal sends for them, with nothing held before,
-- delivers exactly these keys, in order, and leaves nothing held. A byte from 0x20 on but 0x7f
-- counts as a key by itself.
pub feed_input-SendsAll :
    {typed : List Key} {bytes : Bytes} (keys : List Key)
    → SendsAll typed bytes
    → feed_input bytes (record { pending = []; keys = keys })
      ≡ ok (record { pending = []; keys = keys ++ typed })
feed_input-SendsAll keys nothing =
    unfold feed_input in ap (λ l. ok (record { pending = []; keys = l })) (sym (append-nil keys))
feed_input-SendsAll keys (more {key} {keys = typed} {bytes} {rest} sends others) =
    feed_input-append bytes rest _
    ∙ ap (λ r. r >>= feed_input rest) (Sends-Fed sends keys)
    ∙ feed_input-SendsAll (keys ++ key ∷ []) others
    ∙ ap (λ l. ok (record { pending = []; keys = l })) (append_assoc keys (key ∷ []) typed)
feed_input-SendsAll keys (escape_and {key} {keys = typed} {c} {rest} sends bracket o others) =
    let (plain, k) = feed-one c sends refl in
    feed_input-append (esc ∷ c ∷ []) rest _
    ∙ ap (λ r. r >>= feed_input rest) (feed-escape c keys key bracket o plain k)
    ∙ feed_input-SendsAll ((keys ++ special escape ∷ []) ++ key ∷ []) others
    ∙ ap (λ l. ok (record { pending = []; keys = l }))
        (append_assoc (keys ++ special escape ∷ []) (key ∷ []) typed
          ∙ append_assoc keys (special escape ∷ []) (key ∷ typed))
