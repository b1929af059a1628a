-- ===== src/Cmdline/Process.antt =====
-- `yc_cmdline_try_process_args`: the loop over the words.
use yapara_c.Prelude.{
  ℕ, Bool, ◌&&◌, not, List, [], ◌∷◌, ◌++◌, Option, none, some, leb, ◌==◌, if◌then◌else◌, length,
  take, drop, is_same,
}
use yapara_c.Prelude.Loop.{Flow, again, stop, throw, Result, ok, error, ◌>>=◌, run}
use yapara_c.Cmdline.{
  Bytes, Arg, Mode, Error, help_shown, bad_option, requires_argument, argument_not_allowed,
  handler_failed, dash_forbidden, invalid_shortcut, shortcut_takes_argument, unexpected_argument,
  mandatory_missing, State, after_eq, find_arg, find_shortcut, check_mandatory, check_exclusive,
}

abbrev pub help_name : Bytes
help_name = b'h' ∷ b'e' ∷ b'l' ∷ b'p' ∷ []

abbrev pub is_single_char : ℕ → Bool
is_single_char c = leb b'!' c && leb c b'~'

module _ {S : Type 0} (mode : Mode S) where
  -- `skip_or_swallow`
  unfoldable pub skip_or_swallow : ℕ → State S → State S
  skip_or_swallow n s = record s {
    done = if mode.swallow_arguments then s.done else s.done ++ take n s.rest;
    rest = drop n s.rest;
  }

  -- `i++`
  unfoldable pub keep_word : State S → State S
  keep_word s = record s { done = s.done ++ take 1 s.rest; rest = drop 1 s.rest }

  -- What follows a call of `arg->func`: the mark, and the words that it took.
  unfoldable pub after_func : ℕ → Arg S → Option S → State S → Flow Error (State S)
  after_func n arg none s = throw handler_failed
  after_func n arg (some vars) s =
      again (skip_or_swallow n (record s { used = s.used ++ arg.option_name ∷ []; vars = vars }))

  abbrev pub call_func : ℕ → Arg S → Option Bytes → State S → Flow Error (State S)
  call_func n arg value s = after_func n arg (arg.func value s.vars) s

  -- The word behind this one as the argument; `more` is what follows this word.
  unfoldable pub call_with_next : Arg S → List Bytes → State S → Flow Error (State S)
  call_with_next arg [] s = throw requires_argument
  call_with_next arg (value ∷ more) s = call_func 2 arg (some value) s

  -- A long option that is known.
  unfoldable pub long_known : Arg S → Option Bytes → List Bytes → State S → Flow Error (State S)
  long_known arg none more s =
      if arg.takes_argument && not arg.optional
      then call_with_next arg more s
      else call_func 1 arg none s
  long_known arg (some value) more s =
      if not arg.takes_argument then throw argument_not_allowed else call_func 1 arg (some value) s

  -- A long option, with what the lookup found.
  unfoldable pub long_found : Option (Arg S) → Bytes → List Bytes → State S → Flow Error (State S)
  long_found none opt more s =
      if mode.permit_unknown_options
      then again (keep_word s)
      else if mode.permit_help && is_same opt help_name
      then throw help_shown
      else throw bad_option
  long_found (some arg) opt more s = long_known arg (after_eq opt) more s

  abbrev pub long_option : Bytes → List Bytes → State S → Flow Error (State S)
  long_option opt more s = long_found (find_arg opt mode.args) opt more s

  -- '-' by itself ends the options.
  unfoldable pub lone_dash : State S → Flow Error (State S)
  lone_dash s =
      if not mode.permit_extra_arguments then throw dash_forbidden else stop (skip_or_swallow 1 s)

  -- A single short option, with what the table has.
  unfoldable pub short_found : Option (Arg S) → ℕ → List Bytes → State S → Flow Error (State S)
  short_found none c more s = throw invalid_shortcut
  short_found (some arg) c more s =
      if not (is_single_char c)
      then throw invalid_shortcut
      else if arg.takes_argument
      then call_with_next arg more s
      else call_func 1 arg none s

  abbrev pub short_option : ℕ → List Bytes → State S → Flow Error (State S)
  short_option c more s = short_found (find_shortcut c mode) c more s

  -- The first of the loops over combined short options.
  unfoldable pub check_shortcuts : Bytes → Option Error
  check_shortcuts [] = none
  check_shortcuts (c ∷ chars) =
      let rest = check_shortcuts chars in
      elim (find_shortcut c mode) [
        | none ↦ some invalid_shortcut
        | some arg ↦
            if not (is_single_char c)
            then some invalid_shortcut
            else if arg.takes_argument
            then some shortcut_takes_argument
            else rest
      ]

  -- The second of them: the options used and the variables, or `none` where a handler fails.
  unfoldable pub call_shortcuts : Bytes → List Bytes → S → Option (List Bytes × S)
  call_shortcuts [] used vars = some (used, vars)
  call_shortcuts (c ∷ chars) used vars = elim (find_shortcut c mode) [
    | none ↦ none
    | some arg ↦ elim (arg.func none vars) [
      | none ↦ none
      | some after ↦ call_shortcuts chars (used ++ arg.option_name ∷ []) after
    ]
  ]

  -- What follows the two loops.
  unfoldable pub combined : Option Error → Option (List Bytes × S) → State S → Flow Error (State S)
  combined (some e) result s = throw e
  combined none none s = throw handler_failed
  combined none (some (used, vars)) s =
      again (skip_or_swallow 1 (record s { used = used; vars = vars }))

  abbrev pub short_options : Bytes → State S → Flow Error (State S)
  short_options chars s = combined (check_shortcuts chars) (call_shortcuts chars s.used s.vars) s

  -- What follows a call of the argument handler.
  unfoldable pub after_handler : Option S → State S → Flow Error (State S)
  after_handler none s = throw handler_failed
  after_handler (some vars) s = again (skip_or_swallow 1 (record s { vars = vars }))

  -- A word that begins with no '-', where this is the argument handler.
  unfoldable pub argument_with :
      Option (Bytes → S → Option S) → Bytes → State S → Flow Error (State S)
  argument_with (some handler) word s = after_handler (handler word s.vars) s
  argument_with none word s =
      if mode.permit_extra_arguments then again (keep_word s) else throw unexpected_argument

  abbrev pub argument : Bytes → State S → Flow Error (State S)
  argument word s = argument_with mode.argument_handler word s

  -- What follows a '-'.
  unfoldable pub dashed : Bytes → List Bytes → State S → Flow Error (State S)
  dashed [] more s = lone_dash s
  dashed (c ∷ []) more s = if c == b'-' then long_option [] more s else short_option c more s
  dashed (c ∷ d ∷ chars) more s =
      if c == b'-' then long_option (d ∷ chars) more s else short_options (c ∷ d ∷ chars) s

  -- A word, with those behind it.
  unfoldable pub take_word : Bytes → List Bytes → State S → Flow Error (State S)
  take_word [] more s = argument [] s
  take_word (c ∷ chars) more s = if c == b'-' then dashed chars more s else argument (c ∷ chars) s

  -- One round of the loop of `yc_cmdline_try_process_args`.
  unfoldable pub args_step : List Bytes → State S → Flow Error (State S)
  args_step [] s = stop s
  args_step (word ∷ more) s = take_word word more s

  -- The checks at the end, with what `check_mutually_exclusive_args` found.
  abbrev pub unless_error : Option Error → State S → Result Error (State S)
  unless_error none s = ok s
  unless_error (some e) s = error e

  unfoldable pub check_options : State S → Result Error (State S)
  check_options s =
      if not (check_mandatory mode.args s.used)
      then error mandatory_missing
      else unless_error (check_exclusive mode.exclusions s.used) s

  -- `yc_cmdline_try_process_args`
  unfoldable pub process_args : State S → Result Error (State S)
  process_args s = do
    after ← run (λ t. length t.rest) (λ t. args_step t.rest t) s
    check_options after
