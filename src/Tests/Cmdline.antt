-- ===== src/Tests/Cmdline.antt =====
-- The theorems on src/yc-cmdline.c at a concrete command line.
use yapara_c.Prelude.{ℕ, true, false, List, [], ◌∷◌, Option, none, some, ◌≡◌, refl, arith}
use yapara_c.Prelude.Loop.{◌>>=◌}
use yapara_c.Cmdline.{Bytes, Arg, Mode, State, name_matches, find_arg, find_name, find_shortcut}
use yapara_c.Cmdline.Process.{check_options, process_args}
use yapara_c.Cmdline.Handlers.{handle_boolean, handle_string, store_in}
use yapara_c.Cmdline.Spelling.{
  Setting, settle, outcome, Spells, nothing, plain, short_apart, argument,
}
use yapara_c.Cmdline.Settings.{process_args-Spells}
use yapara_c.Cmdline.Checked.{IsChecked, process_args-IsChecked}

-- The variables of the program: a file's name, and a switch.
record Vars : Type 0 where
  file : Option Bytes
  quiet : ℕ

abbrev file_arg : Arg Vars
file_arg = record {
  option_name = b'o' ∷ b'u' ∷ b't' ∷ [];
  takes_argument = true;
  optional = false;
  mandatory = true;
  func = λ text vars. store_in (λ v (s : Vars). record s { file = v }) (handle_string text) vars;
}

abbrev quiet_arg : Arg Vars
quiet_arg = record {
  option_name = b'q' ∷ [];
  takes_argument = false;
  optional = false;
  mandatory = false;
  func = λ text vars.
      store_in (λ v (s : Vars). record s { quiet = 1 }) (handle_boolean false text) vars;
}

abbrev two_options : Mode Vars
two_options = record {
  permit_unknown_options = false;
  permit_extra_arguments = true;
  permit_help = true;
  swallow_arguments = true;
  args = file_arg ∷ quiet_arg ∷ [];
  shortcuts = (b'o', b'o' ∷ b'u' ∷ b't' ∷ []) ∷ [];
  argument_handler = none;
  exclusions = record { one_required = true; names = (b'o' ∷ b'u' ∷ b't' ∷ []) ∷ [] } ∷ [];
}

abbrev start_vars : Vars
start_vars = record { file = none; quiet = 0 }

-- -o f x --q
abbrev four_words : List Bytes
four_words = (b'-' ∷ b'o' ∷ []) ∷ (b'f' ∷ []) ∷ (b'x' ∷ []) ∷ (b'-' ∷ b'-' ∷ b'q' ∷ []) ∷ []

abbrev two_settings : List (Setting Vars)
two_settings =
    record { arg = file_arg; value = some (b'f' ∷ []) }
    ∷ record { arg = quiet_arg; value = none }
    ∷ []

four_words-Spells : Spells two_options four_words two_settings ((b'x' ∷ []) ∷ [])
unfolding find_arg find_shortcut find_name name_matches
four_words-Spells = short_apart file_arg b'o' (b'f' ∷ []) (omega arith) refl refl refl (
    argument (b'x' ∷ []) (omega arith)
      (plain quiet_arg (b'q' ∷ []) (omega arith, tt) refl refl nothing))

abbrev start_state : State Vars
start_state = record { done = []; rest = four_words; used = []; vars = start_vars }

process_args-Spells_example :
    process_args two_options start_state
    ≡ (outcome ((b'x' ∷ []) ∷ []) (settle two_settings [] start_vars) >>= check_options two_options)
process_args-Spells_example =
    process_args-Spells two_options refl refl refl [] start_vars four_words-Spells

process_args-IsChecked_example : IsChecked two_options (process_args two_options start_state)
process_args-IsChecked_example = process_args-IsChecked two_options start_state
