-- ===== src/Shell/Quoting.antt =====
-- Single quotes, `'...'`, keep every byte: what a caller quotes is what the child gets.
use yapara_c.Prelude.{
  ℕ, Bool, true, false, List, [], ◌∷◌, ◌++◌, ◌&&◌, none, some, ◌≡◌, refl, ap, ◌∙◌, append-nil,
  append_assoc, ◌==◌, ==_iff, if◌then◌else◌, length, inl, inr, Bool-cases,
}
use yapara_c.Prelude.Loop.{again, stop, proceed, resume, Result, ok, run, run-step}
use yapara_c.Shell.Types.{Bytes, Failure, Environment}
use yapara_c.Shell.Chars.{peek, is_ifs, is_redirect_start, skip_ifs, assignment_name_length}
use yapara_c.Shell.Words.{
  WordState, single_quoted, escape_step, word_step, word_loop, parse_word, finish_word,
}
use yapara_c.Shell.FdMap.{check_dup_order, dup_order_from}
use yapara_c.Shell.Env.{build_env}
use yapara_c.Shell.Line.{
  LineState, is_empty_list, token_step, line_step, check_line, parse_line, shell_parse, finish_line,
  finish_parse, build_create_info, std_fd_infos, other_fd_infos, default_fd_infos,
}
use yapara_c.Shell.Progress.Word.{word_step-Decreases}
use yapara_c.Shell.Progress.Token.{line_step-Decreases}

-- The inside of the quotes: a quote is written as the four bytes '\''.
abbrev pub escaped : Bytes → Bytes
escaped [] = []
escaped (c ∷ w) = if c == b'\'' then b'\'' ∷ b'\\' ∷ b'\'' ∷ b'\'' ∷ escaped w else c ∷ escaped w

-- A quoted word, and what follows it.
abbrev pub quoted : Bytes → Bytes → Bytes
quoted w rest = b'\'' ∷ (escaped w ++ b'\'' ∷ rest)

-- Each word behind a space.
abbrev pub quoted_tail : List Bytes → Bytes
quoted_tail [] = []
quoted_tail (w ∷ ws) = b' ' ∷ quoted w (quoted_tail ws)

single_quoted-other :
    (c : ℕ) (p : Bytes) (s : WordState)
    → (c == b'\'') ≡ false
    → single_quoted (c ∷ p) s ≡ single_quoted p (record s { word = s.word ++ c ∷ [] })
unfolding single_quoted
single_quoted-other c p s h = rw h

-- The end, or a space.
abbrev EndsWord : Bytes → Type 0
EndsWord [] = Unit
EndsWord (c ∷ p) = c ≡ b' '

module _ (e : Environment) (split : Bool) where
  word_loop-step :
      (s : WordState) → word_loop e split s ≡ proceed (word_step e split s.p s) (word_loop e split)
  unfolding word_loop
  word_loop-step s =
      run-step (λ t. length t.p) (λ t. word_step e split t.p t) (word_step-Decreases e split) s

  word_step-end : (p : Bytes) (s : WordState) → EndsWord p → word_step e split p s ≡ stop s
  unfolding word_step is_ifs
  word_step-end [] s h = refl
  word_step-end (c ∷ p) s h = rw h

  word_loop-end : (s : WordState) → EndsWord s.p → word_loop e split s ≡ ok s
  word_loop-end s h = word_loop-step s ∙ rw (word_step-end s.p s h)

  -- At an opening quote.
  word_loop-quote :
      (p : Bytes) (s : WordState)
      → s.p ≡ b'\'' ∷ p
      → word_loop e split s
        ≡ proceed (resume (single_quoted p (record s { has_content = true }))) (word_loop e split)
  word_loop-quote p s q = word_loop-step s ∙ rw q (unfold word_step is_ifs in refl)

  -- At a quote behind a backslash.
  word_loop-escape :
      (p : Bytes) (s : WordState)
      → s.p ≡ b'\\' ∷ b'\'' ∷ p
      → word_loop e split s
        ≡ word_loop e split (record s { p = p; word = s.word ++ b'\'' ∷ []; has_content = true })
  word_loop-escape p s q = word_loop-step s ∙ rw q (unfold word_step is_ifs escape_step in refl)

  -- At the closing quote.
  closing :
      (p : Bytes) (s : WordState) {r : Result Failure WordState}
      → word_loop e split (record s { p = p }) ≡ r
      → proceed (resume (single_quoted (b'\'' ∷ p) s)) (word_loop e split) ≡ r
  unfolding single_quoted
  closing p s h = h

  -- The loop reads the inside of the quotes and the closing one.
  single_quoted-escaped :
      (w rest : Bytes) (s : WordState)
      → s.has_content ≡ true
      → proceed (resume (single_quoted (escaped w ++ b'\'' ∷ rest) s)) (word_loop e split)
        ≡ word_loop e split (record s { p = rest; word = s.word ++ w; has_content = true })
  single_quoted-escaped [] rest s h = rw (append-nil, ← h) (unfold single_quoted in refl)
  single_quoted-escaped (c ∷ w) rest s h = elim (Bool-cases (c == b'\'')) [
    | inl quote ↦
        let reopened = b'\\' ∷ b'\'' ∷ b'\'' ∷ (escaped w ++ b'\'' ∷ rest) in
        let inside = escaped w ++ b'\'' ∷ rest in
        let literal : WordState = record {
          p = b'\'' ∷ inside;
          word = s.word ++ b'\'' ∷ [];
          has_content = true;
          out = s.out;
        } in
        rw quote (
          closing reopened s (
            (word_loop-escape (b'\'' ∷ inside) (record s { p = reopened }) refl
              ∙ word_loop-quote inside literal refl
              ∙ single_quoted-escaped w rest (record literal { p = b'\'' ∷ inside }) refl
              ∙ rw (append_assoc, (==_iff c b'\'').0 quote))))
    | inr other ↦ rw other (
        rw (single_quoted-other c (escaped w ++ b'\'' ∷ rest) s other)
          (single_quoted-escaped w rest (record s { word = s.word ++ c ∷ [] }) h ∙ rw append_assoc))
  ]

  word_loop-quoted :
      (w rest : Bytes) (s : WordState)
      → s.p ≡ quoted w rest
      → EndsWord rest
      → word_loop e split s ≡ ok (record s { p = rest; word = s.word ++ w; has_content = true })
  word_loop-quoted w rest s q h =
      word_loop-quote (escaped w ++ b'\'' ∷ rest) s q
      ∙ single_quoted-escaped w rest (record s { has_content = true }) refl
      ∙ word_loop-end (record s { p = rest; word = s.word ++ w; has_content = true }) h

  -- A quoted word that a blank or the end follows is one field, whatever bytes it holds.
  parse_word-quoted :
      (w rest : Bytes) (out : List Bytes)
      → EndsWord rest
      → parse_word e split (quoted w rest) out ≡ ok (rest, out ++ w ∷ [])
  unfolding parse_word
  parse_word-quoted w rest out h =
      rw
        (word_loop-quoted w rest
          (record { p = quoted w rest; word = []; has_content = false; out = out }) refl h)
        (unfold finish_word in refl)

and-false : (b : Bool) → (b && false) ≡ false
and-false true = refl
and-false false = refl

quoted_tail-EndsWord : (ws : List Bytes) → EndsWord (quoted_tail ws)
quoted_tail-EndsWord [] = tt
quoted_tail-EndsWord (w ∷ ws) = refl

module _ (e : Environment) where
  line_loop : LineState → Result Failure LineState
  line_loop = run (λ s. length s.p) (line_step e)

  line_loop-step : (s : LineState) → line_loop s ≡ proceed (line_step e s) line_loop
  unfolding line_loop
  line_loop-step s = run-step (λ t. length t.p) (line_step e) (line_step-Decreases e) s

  token_step-quoted :
      (w : Bytes) (ws : List Bytes) (s : LineState)
      → token_step e (record s { p = quoted w (quoted_tail ws) })
        ≡ again (record s { p = quoted_tail ws; args = s.args ++ w ∷ [] })
  unfolding token_step peek is_redirect_start assignment_name_length
  token_step-quoted w ws s = rw (
    parse_word-quoted e true w (quoted_tail ws) s.args (quoted_tail-EndsWord ws),
    and-false (is_empty_list s.args),
  )

  line_loop-quoted :
      (ws : List Bytes) (s : LineState)
      → s.p ≡ quoted_tail ws
      → line_loop s ≡ ok (record s { p = []; args = s.args ++ ws })
  line_loop-quoted [] s q =
      line_loop-step s ∙ rw (q, append-nil) (unfold line_step skip_ifs token_step peek in refl)
  line_loop-quoted (w ∷ ws) s q =
      line_loop-step s
      ∙ rw q (unfold line_step skip_ifs in rw (token_step-quoted w ws s))
      ∙ line_loop-quoted ws (record s { p = quoted_tail ws; args = s.args ++ w ∷ [] }) refl
      ∙ rw append_assoc

  parse_line-quoted :
      (w : Bytes) (ws : List Bytes)
      → parse_line e (quoted w (quoted_tail ws))
        ≡ ok (record { p = []; args = w ∷ ws; assigns = []; fdmap = []; order = 0 })
  unfolding parse_line line_loop check_line check_dup_order dup_order_from
  parse_line-quoted w ws =
      let s : LineState = record {
        p = quoted w (quoted_tail ws);
        args = [];
        assigns = [];
        fdmap = [];
        order = 0;
      } in
      let first_token : line_step e s ≡ again (record s { p = quoted_tail ws; args = w ∷ [] }) =
        unfold line_step skip_ifs is_ifs in token_step-quoted w ws s in
      let first : line_loop s
          ≡ ok (record { p = []; args = w ∷ ws; assigns = []; fdmap = []; order = 0 }) =
        line_loop-step s
        ∙ ap (λ f. proceed f line_loop) first_token
        ∙ line_loop-quoted ws (record s { p = quoted_tail ws; args = w ∷ [] }) refl in
      rw first

  -- A line of words in single quotes, with a space between them and each quote inside written as
  -- '\'', becomes a child whose arguments are exactly these words; nothing is expanded, split or
  -- redirected, and the fallback flag makes no difference.
  pub shell_parse-quoted :
      (w : Bytes) (ws : List Bytes) (fallback : Bool)
      → shell_parse e (some (quoted w (quoted_tail ws))) fallback
        ≡ ok (record {
          env = none;
          argv = w ∷ ws;
          program = none;
          fd_infos = default_fd_infos;
          other_fd_infos = [];
        })
  unfolding shell_parse finish_parse finish_line build_create_info build_env std_fd_infos
      other_fd_infos
  shell_parse-quoted w ws fallback = rw (shell_parse, parse_line-quoted w ws)
