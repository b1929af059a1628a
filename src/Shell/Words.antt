-- ===== src/Shell/Words.antt =====
-- `parse_word` and `expand_dollar` of src/yc-shell.c.
use yapara_c.Prelude.{
  ℕ, Bool, true, false, ◌&&◌, ◌||◌, not, List, [], ◌∷◌, ◌++◌, Option, none, some, leb, ◌==◌,
  if◌then◌else◌, length,
}
use yapara_c.Prelude.Loop.{Flow, again, stop, throw, resume, Result, ok, error, ◌>>=◌, run}
use yapara_c.Shell.Types.{Bytes, ErrorCode, syntax, unsupported, Failure, Environment}
use yapara_c.Shell.Chars.{peek, next, is_ifs, is_digit, is_name_start, name_prefix, skip_name}

-- The variables of `parse_word`: `st->p`, the word so far, `has_content`, and the fields that
-- were pushed to `out`.
pub record WordState : Type 0 where
  pub p : Bytes
  pub word : Bytes
  pub has_content : Bool
  pub out : List Bytes

abbrev pub fail : {A : Type 0} → ErrorCode → Bytes → Result Failure A
fail code at = error (record { code = code; at = at })

abbrev pub fail_loop : {A : Type 0} → ErrorCode → Bytes → Flow Failure A
fail_loop code at = throw (record { code = code; at = at })

abbrev pub is_nonempty : Bytes → Bool
is_nonempty [] = false
is_nonempty _ = true

-- Appends a byte that counts as content, and goes on at `p`.
abbrev pub take_byte : WordState → ℕ → Bytes → WordState
take_byte s c p = record s { p = p; word = s.word ++ c ∷ []; has_content = true }

-- One byte of the value of an unquoted expansion.
unfoldable pub split_byte : ℕ → WordState → WordState
split_byte c s =
    if is_ifs c
    then (if s.has_content || is_nonempty s.word
        then record s { out = s.out ++ s.word ∷ []; word = []; has_content = false }
        else s)
    else record s { word = s.word ++ c ∷ []; has_content = true }

unfoldable pub split_fields : Bytes → WordState → WordState
split_fields [] s = s
split_fields (c ∷ value) s = split_fields value (split_byte c s)

abbrev pub value_or_empty : Option Bytes → Bytes
value_or_empty none = []
value_or_empty (some v) = v

-- The special parameters that are refused: $$ $? $! $# $@ $* $0 ... $9.
unfoldable pub is_special : ℕ → Bool
is_special c =
    c == b'$' || c == b'?' || c == b'!' || c == b'#' || c == b'@' || c == b'*' || is_digit c

-- The inside of single quotes, up to behind the closing one.
unfoldable pub single_quoted : Bytes → WordState → Result Failure WordState
single_quoted [] s = fail syntax []
single_quoted (c ∷ p) s =
    if c == b'\''
    then ok (record s { p = p })
    else single_quoted p (record s { word = s.word ++ c ∷ [] })

-- The bytes that are refused outside quotes.
unfoldable pub is_shell_only : ℕ → Bool
is_shell_only c =
    c == b'|'
    || c == b'&'
    || c == b';'
    || c == b'('
    || c == b')'
    || c == b'*'
    || c == b'?'
    || c == b'['
    || c == b']'
    || c == b'{'
    || c == b'}'
    || c == b'`'
    || c == b'!'

-- The backslash outside quotes; the argument is what follows it.
unfoldable pub escape_step : Bytes → WordState → Flow Failure WordState
escape_step [] s = fail_loop syntax s.p
escape_step (c ∷ p) s = if c == b'\n' then again (record s { p = p }) else again (take_byte s c p)

-- What `parse_word` pushes once the loop is done: a word with content, an empty one included.
unfoldable pub finish_word : WordState → Bytes × List Bytes
finish_word s = (s.p, if s.has_content || is_nonempty s.word then s.out ++ s.word ∷ [] else s.out)

module _ (e : Environment) where
  unfoldable pub substitute : Bool → WordState → Bytes → WordState
  substitute split s name =
      let value = value_or_empty (e.getenv name) in
      if not split then record s { word = s.word ++ value } else split_fields value s

  -- At the name of the variable; `s.p` is still at the `$`.
  unfoldable pub expand_name : Bool → WordState → Bool → Bytes → Result Failure WordState
  expand_name split s braced p =
      if not (is_name_start (peek p))
      then (if braced
          then fail unsupported s.p
          else if is_special (peek p)
          then fail unsupported s.p
          else ok (take_byte s b'$' p))
      else if leb 128 (length (name_prefix p))
      then fail unsupported s.p
      else if not braced
      then ok (substitute split (record s { p = skip_name p }) (name_prefix p))
      else if peek (skip_name p) == b'}'
      then ok (substitute split (record s { p = next (skip_name p) }) (name_prefix p))
      else fail unsupported (skip_name p)

  unfoldable pub expand_dollar : Bool → WordState → Result Failure WordState
  expand_dollar split s =
      let p = next s.p in
      if peek p == b'{'
      then expand_name split s true (next p)
      else if peek p == b'('
      then fail unsupported s.p
      else expand_name split s false p

  -- One round of the loop inside double quotes; the argument is `s.p`.
  unfoldable pub double_quoted_step : Bytes → WordState → Flow Failure WordState
  double_quoted_step [] s = fail_loop syntax []
  double_quoted_step (c ∷ p) s =
      if c == b'"'
      then stop (record s { p = p })
      else if c == b'\\'
      then again (
          let escaped = peek p in
          if escaped == b'$' || escaped == b'"' || escaped == b'\\' || escaped == b'`'
          then record s { p = next p; word = s.word ++ escaped ∷ [] }
          else if escaped == b'\n'
          then record s { p = next p }
          else record s { p = p; word = s.word ++ c ∷ [] })
      else if c == b'`'
      then fail_loop unsupported s.p
      else if c == b'$'
      then resume (expand_dollar false s)
      else again (record s { p = p; word = s.word ++ c ∷ [] })

  unfoldable pub double_quoted : WordState → Result Failure WordState
  double_quoted = run (λ s. length s.p) (λ s. double_quoted_step s.p s)

  -- One round of the loop of `parse_word`; the first byte argument is `s.p`.
  unfoldable pub word_step : Bool → Bytes → WordState → Flow Failure WordState
  word_step split [] s = stop s
  word_step split (c ∷ p) s =
      if is_ifs c || c == b'<' || c == b'>'
      then stop s
      else if c == b'\''
      then resume (single_quoted p (record s { has_content = true }))
      else if c == b'"'
      then resume (double_quoted (record s { p = p; has_content = true }))
      else if c == b'\\'
      then escape_step p s
      else if c == b'$'
      then resume (expand_dollar split s)
      else if c == b'~' && not (s.has_content || is_nonempty s.word)
      then fail_loop unsupported s.p
      else if is_shell_only c
      then fail_loop unsupported s.p
      else again (take_byte s c p)

  unfoldable pub word_loop : Bool → WordState → Result Failure WordState
  word_loop split = run (λ s. length s.p) (λ s. word_step split s.p s)

  unfoldable pub parse_word : Bool → Bytes → List Bytes → Result Failure (Bytes × List Bytes)
  parse_word split p out = do
    s ← word_loop split (record { p = p; word = []; has_content = false; out = out })
    ok (finish_word s)
