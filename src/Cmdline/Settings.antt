-- ===== src/Cmdline/Settings.antt =====
-- The options that a command line sets are set in order.
use yapara_c.Prelude.{
  ℕ, Bool, true, false, List, [], ◌∷◌, ◌++◌, Option, none, some, ◌≡◌, refl, ap, sym, ◌∙◌, arith,
  append-nil, append_assoc, ◌==◌, if◌then◌else◌, length, take, drop,
}
use yapara_c.Prelude.Loop.{again, throw, Result, ok, ◌>>=◌, proceed, run, run-step}
use yapara_c.Cmdline.{Bytes, Mode, Error, unexpected_argument, State}
use yapara_c.Cmdline.Process.{
  after_func, argument_with, skip_or_swallow, keep_word, take_word, args_step, check_options,
  process_args,
}
use yapara_c.Cmdline.Rounds.{args_step-Decreases}
use yapara_c.Cmdline.Spelling.{
  IsArgument, and_then, Setting, settle, outcome, Spells, nothing, joined, apart, plain,
  short_apart, short_plain, argument,
}
use yapara_c.Cmdline.Calls.{
  CallsWith, joined-CallsWith, apart-CallsWith, plain-CallsWith, short_apart-CallsWith,
  short_plain-CallsWith,
}

module _ {S : Type 0} (mode : Mode S) where
  -- The loop of `yc_cmdline_try_process_args`.
  abbrev loop_from : State S → Result Error (State S)
  loop_from = run (λ t. length t.rest) (λ t. args_step mode t.rest t)

  no_words : (s : State S) → proceed (args_step mode [] s) loop_from ≡ ok s
  unfolding args_step
  no_words s = refl

  -- What the loop comes to, where the rest of the words is known to be right.
  after_func-outcome :
      (n : ℕ) (x : Setting S) (settings : List (Setting S)) (done words : List Bytes) (s : State S)
      (o : Option S)
      → mode.swallow_arguments ≡ true
      → ((vars : S)
          → loop_from (record s {
            rest = drop n s.rest;
            used = s.used ++ x.arg.option_name ∷ [];
            vars = vars;
          })
            ≡ outcome done (settle settings (s.used ++ x.arg.option_name ∷ []) vars))
      → proceed (after_func mode n x.arg o s) loop_from
        ≡ outcome done
            (and_then o (λ after. settle settings (s.used ++ x.arg.option_name ∷ []) after))
  unfolding after_func skip_or_swallow
  after_func-outcome n x settings done words s none swallows ih = refl
  after_func-outcome n x settings done words s (some vars) swallows ih =
      ap
        (λ (b : Bool). loop_from (record {
          done = if b then s.done else s.done ++ take n s.rest;
          rest = drop n s.rest;
          used = s.used ++ x.arg.option_name ∷ [];
          vars = vars;
        }))
        swallows
      ∙ ih vars

  module _ (swallows : mode.swallow_arguments ≡ true) (permits : mode.permit_extra_arguments ≡ true)
      (no_handler : mode.argument_handler ≡ none) where
    argument-kept :
        (word : Bytes) (more : List Bytes) (s : State S)
        → IsArgument word
        → args_step mode (word ∷ more) s ≡ again (keep_word mode s)
    unfolding args_step take_word argument_with
    argument-kept [] more s h =
        ap (λ o. argument_with mode o [] s) no_handler
        ∙ ap (λ (b : Bool). if b then again (keep_word mode s) else throw unexpected_argument)
            permits
    argument-kept (c ∷ word) more s h =
        let other : (c == b'-') ≡ false = ground arith in
        rw other (
          ap (λ o. argument_with mode o (c ∷ word) s) no_handler
          ∙ ap (λ (b : Bool). if b then again (keep_word mode s) else throw unexpected_argument)
              permits)

    -- The words of one setting, and those behind them.
    CallsWith-outcome :
        (n : ℕ) (x : Setting S) (settings : List (Setting S)) (kept words done used : List Bytes)
        (vars : S)
        → CallsWith mode words n x (record { done = done; rest = words; used = used; vars = vars })
        → ((more : List Bytes) (after : S)
            → loop_from (record { done = done; rest = drop n words; used = more; vars = after })
              ≡ outcome (done ++ kept) (settle settings more after))
        → loop_from (record { done = done; rest = words; used = used; vars = vars })
          ≡ outcome (done ++ kept) (settle (x ∷ settings) used vars)
    CallsWith-outcome n x settings kept words done used vars calls ih =
        let s : State S = record { done = done; rest = words; used = used; vars = vars } in
        run-step (λ t. length t.rest) (λ t. args_step mode t.rest t) (args_step-Decreases mode) s
        ∙ ap (λ f. proceed f loop_from) calls
        ∙ after_func-outcome n x settings (done ++ kept) words s (x.arg.func x.value vars) swallows
            (λ after. ih (used ++ x.arg.option_name ∷ []) after)

    Spells-outcome :
        {words : List Bytes} {settings : List (Setting S)} {kept : List Bytes}
        (done used : List Bytes) (vars : S)
        → Spells mode words settings kept
        → loop_from (record { done = done; rest = words; used = used; vars = vars })
          ≡ outcome (done ++ kept) (settle settings used vars)
    unfolding keep_word
    Spells-outcome done used vars nothing =
        run-step (λ t. length t.rest) (λ t. args_step mode t.rest t) (args_step-Decreases mode)
          (record { done = done; rest = []; used = used; vars = vars })
        ∙ no_words (record { done = done; rest = []; used = used; vars = vars })
        ∙ ap {A = List Bytes} (λ d. ok (record { done = d; rest = []; used = used; vars = vars }))
            (sym (append-nil done))
    Spells-outcome done used vars
          (joined {words} {settings} {kept} arg name value h found takes spelled) =
        CallsWith-outcome 1 _ settings kept _ done used vars
          (joined-CallsWith mode arg name value words _ h found takes)
          (λ more after. Spells-outcome done more after spelled)
    Spells-outcome done used vars
          (apart {words} {settings} {kept} arg name value h found takes spelled) =
        CallsWith-outcome 2 _ settings kept _ done used vars
          (apart-CallsWith mode arg name value words _ h found takes)
          (λ more after. Spells-outcome done more after spelled)
    Spells-outcome done used vars (plain {words} {settings} {kept} arg name h found takes spelled) =
        CallsWith-outcome 1 _ settings kept _ done used vars
          (plain-CallsWith mode arg name words _ h found takes)
          (λ more after. Spells-outcome done more after spelled)
    Spells-outcome done used vars
          (short_apart {words} {settings} {kept} arg c value h single found takes spelled) =
        CallsWith-outcome 2 _ settings kept _ done used vars
          (short_apart-CallsWith mode arg c value words _ h single found takes)
          (λ more after. Spells-outcome done more after spelled)
    Spells-outcome done used vars
          (short_plain {words} {settings} {kept} arg c h single found takes spelled) =
        CallsWith-outcome 1 _ settings kept _ done used vars
          (short_plain-CallsWith mode arg c words _ h single found takes)
          (λ more after. Spells-outcome done more after spelled)
    Spells-outcome done used vars (argument {words} {settings} {kept} word h spelled) =
        let s : State S = record { done = done; rest = word ∷ words; used = used; vars = vars } in
        run-step (λ t. length t.rest) (λ t. args_step mode t.rest t) (args_step-Decreases mode) s
        ∙ ap (λ f. proceed f loop_from) (argument-kept word words s h)
        ∙ Spells-outcome (done ++ word ∷ []) used vars spelled
        ∙ ap (λ words. outcome words (settle settings used vars))
            (append_assoc done (word ∷ []) kept)

    -- Where words are swallowed, arguments are permitted, and no handler takes them,
    -- `yc_cmdline_try_process_args` of words that spell some settings, in any of the five ways for
    -- each, with arguments anywhere between them, calls the handler of each in order with its argument
    -- and leaves exactly the arguments, in order. It fails where a handler does, or one of the checks
    -- at the end.
    pub process_args-Spells :
        {words : List Bytes} {settings : List (Setting S)} {kept : List Bytes} (used : List Bytes)
        (vars : S)
        → Spells mode words settings kept
        → process_args mode (record { done = []; rest = words; used = used; vars = vars })
          ≡ (outcome kept (settle settings used vars) >>= check_options mode)
    unfolding process_args
    process_args-Spells used vars spelled =
        ap (λ r. r >>= check_options mode) (Spells-outcome [] used vars spelled)
