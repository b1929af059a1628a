-- ===== src/Shell/Progress/Word.antt =====
-- How far the loops of `parse_word` and of the quotes move `st->p`.
use yapara_c.Prelude.{
  ℕ, suc, ◌≤◌, ◌<◌, Bool, true, false, List, [], ◌∷◌, ◌≡◌, ◌≢◌, ◌⊎◌, inl, inr, refl, ap, ◌∙◌, ◌++◌,
  arith, length, ◌==◌, ◌||◌,
}
use yapara_c.Prelude.Loop.{
  Flow, again, stop, throw, hang, ◌>>=◌, run-again, run-throw, Result, ok, error, stuck, Decreases,
  run-ne-stuck, run-inv,
}
use yapara_c.Shell.Types.{Bytes, Failure, Environment}
use yapara_c.Shell.Chars.{next, skip_name, name_prefix, skip_ifs, is_ifs}
use yapara_c.Shell.Words.{
  WordState, split_byte, split_fields, substitute, expand_name, expand_dollar, single_quoted,
  double_quoted_step, double_quoted, word_loop, escape_step, word_step, finish_word, parse_word,
  value_or_empty,
}

pub length-next : (p : Bytes) → length (next p) ≤ length p
unfolding next
length-next [] = omega arith
length-next (c ∷ p) = omega arith

pub length-skip_name : (p : Bytes) → length (skip_name p) ≤ length p
unfolding skip_name
length-skip_name [] = omega arith
length-skip_name (c ∷ p) = ground (arith, length-skip_name p)

pub length-skip_ifs : (p : Bytes) → length (skip_ifs p) ≤ length p
unfolding skip_ifs
length-skip_ifs [] = omega arith
length-skip_ifs (c ∷ p) = ground (arith, length-skip_ifs p)

split_byte-p : (c : ℕ) (s : WordState) → (split_byte c s).p ≡ s.p
unfolding split_byte
split_byte-p c s = ground arith

split_fields-p : (v : Bytes) (s : WordState) → (split_fields v s).p ≡ s.p
unfolding split_fields
split_fields-p [] s = refl
split_fields-p (c ∷ v) s = split_fields-p v (split_byte c s) ∙ split_byte-p c s

pub next_of_cons : (s : WordState) (c : ℕ) (p : Bytes) → s.p ≡ c ∷ p → next s.p ≡ p
unfolding next
next_of_cons s c p q = ap next q

-- A step that neither leaves the loop nor hangs.
abbrev Going : Flow Failure WordState → Type 0
Going (again s) = Unit {0}
Going (throw x) = Unit {0}
Going (stop s) = ⊥
Going hang = ⊥

-- Where a step ends well, it ends at most `n` bytes before the end.
abbrev pub Within : ℕ → Result Failure WordState → Type 0
Within n (ok s) = length s.p ≤ n
Within n (error x) = Unit
Within n stuck = ⊥

-- `parse_word` returns, with at most `n` bytes left.
abbrev pub WordWithin : ℕ → Result Failure (Bytes × List Bytes) → Type 0
WordWithin n (ok (p, out)) = length p ≤ n
WordWithin n (error x) = Unit
WordWithin n stuck = ⊥

module _ (e : Environment) where
  substitute-p : (split : Bool) (s : WordState) (name : Bytes) → (substitute e split s name).p ≡ s.p
  unfolding substitute
  substitute-p true s name = split_fields-p (value_or_empty (e.getenv name)) s
  substitute-p false s name = refl

  expand_name-Within :
      (split : Bool) (s : WordState) (braced : Bool) (p : Bytes)
      → Within (length p) (expand_name e split s braced p)
  unfolding expand_name
  expand_name-Within split s braced p = ground (
    arith,
    length-skip_name p,
    length-next (skip_name p),
    substitute-p split (record s { p = skip_name p }) (name_prefix p),
    substitute-p split (record s { p = next (skip_name p) }) (name_prefix p),
  )

  expand_dollar-Within :
      (split : Bool) (s : WordState) → Within (length (next s.p)) (expand_dollar e split s)
  unfolding expand_dollar
  expand_dollar-Within split s = ground (
    arith,
    expand_name-Within split s true (next (next s.p)),
    expand_name-Within split s false (next s.p),
    length-next (next s.p),
  )

  single_quoted-Within : (p : Bytes) (s : WordState) → Within (length p) (single_quoted p s)
  unfolding single_quoted
  single_quoted-Within [] s = tt
  single_quoted-Within (c ∷ p) s =
      ground (arith, single_quoted-Within p (record s { word = s.word ++ c ∷ [] }))

  -- One round inside double quotes.
  double_quoted_step-again :
      (c : ℕ) (p : Bytes) (s s' : WordState)
      → s.p ≡ c ∷ p
      → (double_quoted_step e (c ∷ p) s ≡ again s') ⊎ (double_quoted_step e (c ∷ p) s ≡ stop s')
      → length s'.p ≤ length p
  unfolding double_quoted_step next
  double_quoted_step-again c p s s' q h =
      ground (arith, expand_dollar-Within false s, length-next p, ap next q)

  double_quoted_step-down :
      (p : Bytes) (s s' : WordState)
      → s.p ≡ p
      → (double_quoted_step e p s ≡ again s') ⊎ (double_quoted_step e p s ≡ stop s')
      → length s'.p < length p
  unfolding double_quoted_step
  double_quoted_step-down [] s s' q h = ground arith
  double_quoted_step-down (c ∷ p) s s' q h = omega (arith, double_quoted_step-again c p s s' q h)

  double_quoted_step-live : (p : Bytes) (s : WordState) → s.p ≡ p → double_quoted_step e p s ≢ hang
  unfolding double_quoted_step next
  double_quoted_step-live [] s q = λ h. cc
  double_quoted_step-live (c ∷ p) s q = ground (arith, expand_dollar-Within false s)

  Within-of :
      (n : ℕ) (r : Result Failure WordState)
      → r ≢ stuck
      → ((s : WordState) → r ≡ ok s → length s.p ≤ n)
      → Within n r
  Within-of n (ok s) h k = k s refl
  Within-of n (error x) h k = tt
  Within-of n stuck h k = h refl

  -- Double quotes end, and never behind the end of the line.
  double_quoted-Within : (s : WordState) → Within (length s.p) (double_quoted e s)
  unfolding double_quoted
  double_quoted-Within s =
      Within-of (length s.p) (double_quoted e s)
        (run-ne-stuck (λ t. length t.p) (λ t. double_quoted_step e t.p t)
          (λ t t' h. double_quoted_step-down t.p t t' refl (inl h))
          (λ t. double_quoted_step-live t.p t refl) s)
        (λ r.
          run-inv (λ t. length t.p) (λ t. double_quoted_step e t.p t) (λ t. length t.p ≤ length s.p)
            (λ t t' b h. omega (arith, double_quoted_step-down t.p t t' refl h)) s r (omega arith))

  escape_step-down :
      (p : Bytes) (s s' : WordState) → escape_step p s ≡ again s' → length s'.p < suc (length p)
  unfolding escape_step
  escape_step-down [] s s' h = cc
  escape_step-down (c ∷ p) s s' h = ground arith

  escape_step-Going : (p : Bytes) (s : WordState) → Going (escape_step p s)
  unfolding escape_step
  escape_step-Going [] s = tt
  escape_step-Going (c ∷ p) s = ground arith

  -- One round of `parse_word` that goes on has taken a byte.
  word_step-down :
      (split : Bool) (p : Bytes) (s s' : WordState)
      → s.p ≡ p
      → word_step e split p s ≡ again s'
      → length s'.p < length p
  unfolding word_step
  word_step-down split [] s s' q h = cc
  word_step-down split (c ∷ p) s s' q h = ground (
    arith,
    single_quoted-Within p (record s { has_content = true }),
    double_quoted-Within (record s { p = p; has_content = true }),
    expand_dollar-Within split s,
    escape_step-down p s s',
    next_of_cons s c p q,
  )

  word_step-stop :
      (split : Bool) (p : Bytes) (s s' : WordState) → word_step e split p s ≡ stop s' → s' ≡ s
  unfolding word_step
  word_step-stop split [] s s' h = cc
  word_step-stop split (c ∷ p) s s' h = ground (arith, escape_step-Going p s)

  word_step-live :
      (split : Bool) (p : Bytes) (s : WordState) → s.p ≡ p → word_step e split p s ≢ hang
  unfolding word_step
  word_step-live split [] s q = λ h. cc
  word_step-live split (c ∷ p) s q = ground (
    arith,
    single_quoted-Within p (record s { has_content = true }),
    double_quoted-Within (record s { p = p; has_content = true }),
    expand_dollar-Within split s,
    escape_step-Going p s,
  )

  pub word_step-Decreases :
      (split : Bool) → Decreases (λ s. length s.p) (λ s. word_step e split s.p s)
  word_step-Decreases split s s' h = word_step-down split s.p s s' refl h

  word_loop-Within : (split : Bool) (s : WordState) → Within (length s.p) (word_loop e split s)
  unfolding word_loop
  word_loop-Within split s =
      Within-of (length s.p) (word_loop e split s)
        (run-ne-stuck (λ t. length t.p) (λ t. word_step e split t.p t) (word_step-Decreases split)
          (λ t. word_step-live split t.p t refl) s)
        (λ r.
          run-inv (λ t. length t.p) (λ t. word_step e split t.p t) (λ t. length t.p ≤ length s.p)
            (λ t t' b h. elim h [
              | inl a ↦ omega (arith, word_step-down split t.p t t' refl a)
              | inr z ↦ rw (word_step-stop split t.p t t' z) b
            ])
            s r (omega arith))

  -- A word that does not stop at once takes a byte.
  word_loop-shorter :
      (split : Bool) (n : ℕ) (s : WordState) (f : Flow Failure WordState)
      → word_step e split s.p s ≡ f
      → length s.p ≤ suc n
      → f ≢ stop s
      → Within n (word_loop e split s)
  unfolding word_loop
  word_loop-shorter split n s (again t) q b h =
      rw
        (run-again (λ t. length t.p) (λ t. word_step e split t.p t) (word_step-Decreases split) s t
          q)
        (weaken (word_loop e split t) (omega (arith, word_step-down split s.p s t refl q))
          (word_loop-Within split t))
    where
      weaken : (r : Result Failure WordState) → length t.p ≤ n → Within (length t.p) r → Within n r
      weaken (ok r) h w = omega arith
      weaken (error x) h w = tt
      weaken stuck h w = w
  word_loop-shorter split n s (stop t) q b h = absurd (h (ap stop (word_step-stop split s.p s t q)))
  word_loop-shorter split n s (throw x) q b h =
      rw
        (run-throw (λ t. length t.p) (λ t. word_step e split t.p t) (word_step-Decreases split) s x
          q)
        tt
  word_loop-shorter split n s hang q b h = absurd (word_step-live split s.p s refl q)

  finish-Within :
      (n : ℕ) (r : Result Failure WordState)
      → Within n r
      → WordWithin n (r >>= λ s. ok (finish_word s))
  unfolding finish_word
  finish-Within n (ok s) h = h
  finish-Within n (error x) h = tt
  finish-Within n stuck h = h

  pub parse_word-Within :
      (split : Bool) (p : Bytes) (out : List Bytes)
      → WordWithin (length p) (parse_word e split p out)
  unfolding parse_word
  parse_word-Within split p out =
      finish-Within (length p) _
        (word_loop-Within split (record { p = p; word = []; has_content = false; out = out }))

  word_step-ne-stop :
      (split : Bool) (c : ℕ) (p : Bytes) (s t : WordState)
      → (is_ifs c || c == b'<' || c == b'>') ≡ false
      → word_step e split (c ∷ p) s ≢ stop t
  unfolding word_step
  word_step-ne-stop split c p s t h = rw h (ground (arith, escape_step-Going p s))

  -- Past its first byte, where that does not end a word.
  pub parse_word-shorter :
      (split : Bool) (c : ℕ) (p : Bytes) (out : List Bytes)
      → (is_ifs c || c == b'<' || c == b'>') ≡ false
      → WordWithin (length p) (parse_word e split (c ∷ p) out)
  unfolding parse_word
  parse_word-shorter split c p out h =
      let s : WordState = record { p = c ∷ p; word = []; has_content = false; out = out } in
      finish-Within (length p) _ (
        word_loop-shorter split (length p) s (word_step e split s.p s) refl (omega arith)
          (word_step-ne-stop split c p s s h))
