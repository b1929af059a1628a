-- ===== src/Cmdline/Rounds.antt =====
-- A round of the loop over the words takes at least one.
use yapara_c.Prelude.{
  ℕ, ◌<◌, Bool, true, false, ◌&&◌, not, List, [], ◌∷◌, Option, none, some, ◌≡◌, ◌≢◌, refl, subst,
  arith, ◌==◌, if◌then◌else◌, length, is_same, length-drop,
}
use yapara_c.Prelude.Loop.{Flow, again, stop, throw, hang, Decreases}
use yapara_c.Cmdline.{
  Bytes, Arg, Mode, Error, help_shown, bad_option, argument_not_allowed, invalid_shortcut,
  unexpected_argument, dash_forbidden, State, after_eq,
}
use yapara_c.Cmdline.Process.{
  after_func, long_found, short_found, combined, after_handler, argument_with, is_single_char,
  skip_or_swallow, keep_word, call_with_next, long_known, lone_dash, dashed, take_word, args_step,
  help_name,
}

-- Another round has fewer words before it; and nothing hangs.
abbrev pub Shrinks : {S : Type 0} → ℕ → Flow Error (State S) → Type 0
Shrinks n (again s) = length s.rest < n
Shrinks n (stop s) = Unit
Shrinks n (throw e) = Unit
Shrinks n hang = ⊥

module _ {S : Type 0} (mode : Mode S) where
  after_func-Shrinks :
      (n : ℕ) (arg : Arg S) (o : Option S) (s : State S)
      → 0 < n
      → 0 < length s.rest
      → Shrinks (length s.rest) (after_func mode n arg o s)
  unfolding after_func skip_or_swallow
  after_func-Shrinks n arg none s h k = tt
  after_func-Shrinks n arg (some vars) s h k = omega (arith, length-drop n s.rest)

  keep_word-Shrinks :
      (s : State S) → 0 < length s.rest → length (keep_word mode s).rest < length s.rest
  unfolding keep_word
  keep_word-Shrinks s h = omega (arith, length-drop 1 s.rest)

  call_with_next-Shrinks :
      (arg : Arg S) (more : List Bytes) (s : State S)
      → 0 < length s.rest
      → Shrinks (length s.rest) (call_with_next mode arg more s)
  unfolding call_with_next
  call_with_next-Shrinks arg [] s h = tt
  call_with_next-Shrinks arg (value ∷ more) s h = after_func-Shrinks 2 arg _ s (omega arith) h

  if-Shrinks :
      (b : Bool) (n : ℕ) (f g : Flow Error (State S))
      → Shrinks n f
      → Shrinks n g
      → Shrinks n (if b then f else g)
  if-Shrinks true n f g h k = h
  if-Shrinks false n f g h k = k

  long_known-Shrinks :
      (arg : Arg S) (value : Option Bytes) (more : List Bytes) (s : State S)
      → 0 < length s.rest
      → Shrinks (length s.rest) (long_known mode arg value more s)
  unfolding long_known
  long_known-Shrinks arg none more s h =
      if-Shrinks (arg.takes_argument && not arg.optional) _ _ _
        (call_with_next-Shrinks arg more s h) (after_func-Shrinks 1 arg _ s (omega arith) h)
  long_known-Shrinks arg (some value) more s h =
      if-Shrinks (not arg.takes_argument) _ (throw argument_not_allowed) _ tt
        (after_func-Shrinks 1 arg _ s (omega arith) h)

  long_found-Shrinks :
      (o : Option (Arg S)) (opt : Bytes) (more : List Bytes) (s : State S)
      → 0 < length s.rest
      → Shrinks (length s.rest) (long_found mode o opt more s)
  unfolding long_found
  long_found-Shrinks none opt more s h =
      if-Shrinks mode.permit_unknown_options _ (again (keep_word mode s)) _ (keep_word-Shrinks s h)
        (if-Shrinks (mode.permit_help && is_same opt help_name) _ (throw help_shown)
          (throw bad_option) tt tt)
  long_found-Shrinks (some arg) opt more s h = long_known-Shrinks arg (after_eq opt) more s h

  lone_dash-Shrinks : (s : State S) → Shrinks (length s.rest) (lone_dash mode s)
  unfolding lone_dash
  lone_dash-Shrinks s =
      if-Shrinks (not mode.permit_extra_arguments) _ (throw dash_forbidden)
        (stop (skip_or_swallow mode 1 s)) tt tt

  short_found-Shrinks :
      (o : Option (Arg S)) (c : ℕ) (more : List Bytes) (s : State S)
      → 0 < length s.rest
      → Shrinks (length s.rest) (short_found mode o c more s)
  unfolding short_found
  short_found-Shrinks none c more s h = tt
  short_found-Shrinks (some arg) c more s h =
      if-Shrinks (not (is_single_char c)) _ (throw invalid_shortcut) _ tt (
        if-Shrinks arg.takes_argument _ (call_with_next mode arg more s) _
          (call_with_next-Shrinks arg more s h) (after_func-Shrinks 1 arg _ s (omega arith) h))

  combined-Shrinks :
      (e : Option Error) (o : Option (List Bytes × S)) (s : State S)
      → 0 < length s.rest
      → Shrinks (length s.rest) (combined mode e o s)
  unfolding combined skip_or_swallow
  combined-Shrinks (some e) o s h = tt
  combined-Shrinks none none s h = tt
  combined-Shrinks none (some (used, vars)) s h = omega (arith, length-drop 1 s.rest)

  after_handler-Shrinks :
      (o : Option S) (s : State S)
      → 0 < length s.rest
      → Shrinks (length s.rest) (after_handler mode o s)
  unfolding after_handler skip_or_swallow
  after_handler-Shrinks none s h = tt
  after_handler-Shrinks (some vars) s h = omega (arith, length-drop 1 s.rest)

  argument_with-Shrinks :
      (o : Option (Bytes → S → Option S)) (word : Bytes) (s : State S)
      → 0 < length s.rest
      → Shrinks (length s.rest) (argument_with mode o word s)
  unfolding argument_with
  argument_with-Shrinks (some handler) word s h = after_handler-Shrinks (handler word s.vars) s h
  argument_with-Shrinks none word s h =
      if-Shrinks mode.permit_extra_arguments _ (again (keep_word mode s))
        (throw unexpected_argument) (keep_word-Shrinks s h) tt

  dashed-Shrinks :
      (chars : Bytes) (more : List Bytes) (s : State S)
      → 0 < length s.rest
      → Shrinks (length s.rest) (dashed mode chars more s)
  unfolding dashed
  dashed-Shrinks [] more s h = lone_dash-Shrinks s
  dashed-Shrinks (c ∷ []) more s h =
      if-Shrinks (c == b'-') _ _ _ (long_found-Shrinks _ [] more s h)
        (short_found-Shrinks _ c more s h)
  dashed-Shrinks (c ∷ d ∷ chars) more s h =
      if-Shrinks (c == b'-') _ _ _ (long_found-Shrinks _ (d ∷ chars) more s h)
        (combined-Shrinks _ _ s h)

  args_step-Shrinks :
      (words : List Bytes) (s : State S)
      → s.rest ≡ words
      → Shrinks (length s.rest) (args_step mode words s)
  unfolding args_step take_word
  args_step-Shrinks [] s e = tt
  args_step-Shrinks ([] ∷ more) s e = argument_with-Shrinks _ [] s (rw e (omega arith))
  args_step-Shrinks ((c ∷ chars) ∷ more) s e =
      if-Shrinks (c == b'-') _ _ _ (dashed-Shrinks chars more s (rw e (omega arith)))
        (argument_with-Shrinks _ (c ∷ chars) s (rw e (omega arith)))

  pub args_step-Decreases : Decreases (λ t. length t.rest) (λ t. args_step mode t.rest t)
  args_step-Decreases s s' e = subst (Shrinks (length s.rest)) e (args_step-Shrinks s.rest s refl)

  pub args_step-live : (s : State S) → args_step mode s.rest s ≢ hang
  args_step-live s e = subst (Shrinks (length s.rest)) e (args_step-Shrinks s.rest s refl)
