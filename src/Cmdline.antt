-- ===== src/Cmdline.antt =====
-- The options of a command line (`yc_cmdline_try_process_args` of src/yc-cmdline.c). The functions
-- that would add modes below the top one are declared in src/yc-cmdline.h and defined nowhere, so
-- there is one mode. The tree of options is a list here, in which each name stands once.
pub mod Process
pub mod Handlers
pub mod Spelling
pub mod Calls
pub mod Settings
pub mod Rounds
pub mod Checked
use yapara_c.Prelude.{
  ℕ, zero, suc, ◌+◌, Bool, true, false, ◌&&◌, ◌||◌, not, List, [], ◌∷◌, ◌++◌, Option, none, some,
  ltb, leb, ◌==◌, if◌then◌else◌, length, take, drop, is_same,
}

abbrev pub Bytes : Type 0
Bytes = List ℕ

-- `YcCmdlineArg` for a program whose variables have values in `S`: `func` is the handler, with the
-- variables before and after it, and `none` where it fails.
pub record Arg (S : Type 0) : Type 0 where
  pub option_name : Bytes
  pub takes_argument : Bool
  pub optional : Bool
  pub mandatory : Bool
  pub func : Option Bytes → S → Option S

-- `ExclNode`
pub record Excl : Type 0 where
  pub one_required : Bool
  pub names : List Bytes

-- `YcCmdlineMode` with what the library was told before; `shortcuts` has the names of
-- `args_single_char`.
pub record Mode (S : Type 0) : Type 0 where
  pub permit_unknown_options : Bool
  pub permit_extra_arguments : Bool
  pub permit_help : Bool
  pub swallow_arguments : Bool
  pub args : List (Arg S)
  pub shortcuts : List (ℕ × Bytes)
  pub argument_handler : Option (Bytes → S → Option S)
  pub exclusions : List Excl

pub data Error : Type 0 where
  help_shown : Error
  bad_option : Error
  requires_argument : Error
  argument_not_allowed : Error
  handler_failed : Error
  dash_forbidden : Error
  invalid_shortcut : Error
  shortcut_takes_argument : Error
  unexpected_argument : Error
  mandatory_missing : Error
  exclusive_given : Error
  one_is_required : Error

-- The words of argv before `i` that stay, those from `i` on, the options that were marked as used,
-- in order, and the program's variables.
pub record State (S : Type 0) : Type 0 where
  pub done : List Bytes
  pub rest : List Bytes
  pub used : List Bytes
  pub vars : S

-- Whether `compare_equal_terminated_str` returns 0.
unfoldable pub name_matches : Bytes → Bytes → Bool
name_matches [] [] = true
name_matches [] (b ∷ name) = false
name_matches (a ∷ option) [] = a == b'='
name_matches (a ∷ option) (b ∷ name) =
    let rest = name_matches option name in not (a == b'=') && (a == b) && rest

-- `strchr (opt, '=')`, and what is behind the '='.
unfoldable pub after_eq : Bytes → Option Bytes
after_eq [] = none
after_eq (c ∷ opt) = let rest = after_eq opt in if c == b'=' then some opt else rest

unfoldable pub find_name : ℕ → List (ℕ × Bytes) → Option Bytes
find_name c [] = none
find_name c ((d, name) ∷ shortcuts) =
    let rest = find_name c shortcuts in if d == c then some name else rest

unfoldable pub is_used : Bytes → List Bytes → Bool
is_used name [] = false
is_used name (other ∷ used) = let rest = is_used name used in is_same name other || rest

-- The inner loop of `check_mutually_exclusive_args`: how many options of the group were used, and
-- `none` at the second.
unfoldable pub check_group : List Bytes → (got : Bool) → List Bytes → Option Bool
check_group [] got used = some got
check_group (name ∷ names) got used =
    let rest = check_group names (got || is_used name used) used in
    if is_used name used && got then none else rest

abbrev pub group_error : Option Bool → Bool → Option Error
group_error none one_required = some exclusive_given
group_error (some got) one_required = if not got && one_required then some one_is_required else none

abbrev pub first_error : Option Error → Option Error → Option Error
first_error none rest = rest
first_error (some e) rest = some e

-- `check_mutually_exclusive_args`
unfoldable pub check_exclusive : List Excl → List Bytes → Option Error
check_exclusive [] used = none
check_exclusive (group ∷ groups) used =
    first_error (group_error (check_group group.names false used) group.one_required)
      (check_exclusive groups used)

module _ {S : Type 0} where
  -- The lookup in the tree.
  unfoldable pub find_arg : Bytes → List (Arg S) → Option (Arg S)
  find_arg opt [] = none
  find_arg opt (arg ∷ args) =
      let rest = find_arg opt args in if name_matches opt arg.option_name then some arg else rest

  abbrev pub arg_of_name : Option Bytes → List (Arg S) → Option (Arg S)
  arg_of_name none args = none
  arg_of_name (some name) args = find_arg name args

  -- The entry of `args_single_char`.
  unfoldable pub find_shortcut : ℕ → Mode S → Option (Arg S)
  find_shortcut c mode = arg_of_name (find_name c mode.shortcuts) mode.args

  -- `check_mandatory_args_recursive` over all options.
  unfoldable pub check_mandatory : List (Arg S) → List Bytes → Bool
  check_mandatory [] used = true
  check_mandatory (arg ∷ args) used =
      let rest = check_mandatory args used in
      (not arg.mandatory || is_used arg.option_name used) && rest
