-- ===== src/Cmdline/Spelling.antt =====
-- What a command line says: the options that it sets, and how each may be spelled.
use yapara_c.Prelude.{
  ℕ, Bool, true, false, ◌&&◌, not, List, [], ◌∷◌, ◌++◌, Option, none, some, ◌≡◌, ◌≢◌, refl, ap,
  arith, ◌==◌,
}
use yapara_c.Prelude.Loop.{Result, ok, error}
use yapara_c.Cmdline.{
  Bytes, Arg, Mode, Error, handler_failed, State, name_matches, after_eq, find_arg, find_shortcut,
}
use yapara_c.Cmdline.Process.{is_single_char}

abbrev pub HasNoEq : Bytes → Type 0
HasNoEq [] = Unit
HasNoEq (c ∷ name) = (c ≢ b'=') × HasNoEq name

-- A word that is no option.
abbrev pub IsArgument : Bytes → Type 0
IsArgument [] = Unit
IsArgument (c ∷ word) = c ≢ b'-'

name_matches-eq :
    (name value other : Bytes)
    → HasNoEq name
    → name_matches (name ++ b'=' ∷ value) other ≡ name_matches name other
unfolding name_matches
name_matches-eq [] value [] h = refl
name_matches-eq [] value (b ∷ other) h = refl
name_matches-eq (c ∷ name) value [] h = refl
name_matches-eq (c ∷ name) value (b ∷ other) h =
    ap (λ (r : Bool). not (c == b'=') && (c == b) && r) (name_matches-eq name value other h.1)

pub after_eq-name : (name : Bytes) → HasNoEq name → after_eq name ≡ none
unfolding after_eq
after_eq-name [] h = refl
after_eq-name (c ∷ name) h =
    let other : (c == b'=') ≡ false = ground arith in rw other (after_eq-name name h.1)

pub after_eq-value :
    (name value : Bytes) → HasNoEq name → after_eq (name ++ b'=' ∷ value) ≡ some value
unfolding after_eq
after_eq-value [] value h = refl
after_eq-value (c ∷ name) value h =
    let other : (c == b'=') ≡ false = ground arith in rw other (after_eq-value name value h.1)

abbrev pub and_then : {A B : Type 0} → Option A → (A → Option B) → Option B
and_then none f = none
and_then (some a) f = f a

-- An option that is set, with the argument it is given.
pub record Setting (S : Type 0) : Type 0 where
  pub arg : Arg S
  pub value : Option Bytes

module _ {S : Type 0} where
  pub find_arg-eq :
      (name value : Bytes) (args : List (Arg S))
      → HasNoEq name
      → find_arg (name ++ b'=' ∷ value) args ≡ find_arg name args
  unfolding find_arg
  find_arg-eq name value [] h = refl
  find_arg-eq name value (arg ∷ args) h =
      rw (name_matches-eq name value arg.option_name h, find_arg-eq name value args h) refl

  -- The handlers of the options, called in order: the options used, and the variables.
  abbrev pub settle : List (Setting S) → List Bytes → S → Option (List Bytes × S)
  settle [] used vars = some (used, vars)
  settle (x ∷ settings) used vars =
      and_then (x.arg.func x.value vars)
        (λ after. settle settings (used ++ x.arg.option_name ∷ []) after)

  -- The state behind the loop, with the words that stay.
  abbrev pub outcome : List Bytes → Option (List Bytes × S) → Result Error (State S)
  outcome words none = error handler_failed
  outcome words (some (used, vars)) =
      ok (record { done = words; rest = []; used = used; vars = vars })

  -- The words of some settings and of the arguments between them, which are kept.
  pub data Spells (mode : Mode S) : List Bytes → List (Setting S) → List Bytes → Type 0 where
    nothing : Spells mode [] [] []
    joined :
        {words : List Bytes} {settings : List (Setting S)} {kept : List Bytes} (arg : Arg S)
        (name value : Bytes)
        → HasNoEq name
        → find_arg name mode.args ≡ some arg
        → arg.takes_argument ≡ true
        → Spells mode words settings kept
        → Spells mode
            ((b'-' ∷ b'-' ∷ name ++ b'=' ∷ value) ∷ words)
            (record { arg = arg; value = some value } ∷ settings)
            kept
    apart :
        {words : List Bytes} {settings : List (Setting S)} {kept : List Bytes} (arg : Arg S)
        (name value : Bytes)
        → HasNoEq name
        → find_arg name mode.args ≡ some arg
        → (arg.takes_argument && not arg.optional) ≡ true
        → Spells mode words settings kept
        → Spells mode
            ((b'-' ∷ b'-' ∷ name) ∷ value ∷ words)
            (record { arg = arg; value = some value } ∷ settings)
            kept
    plain :
        {words : List Bytes} {settings : List (Setting S)} {kept : List Bytes} (arg : Arg S)
        (name : Bytes)
        → HasNoEq name
        → find_arg name mode.args ≡ some arg
        → (arg.takes_argument && not arg.optional) ≡ false
        → Spells mode words settings kept
        → Spells mode
            ((b'-' ∷ b'-' ∷ name) ∷ words)
            (record { arg = arg; value = none } ∷ settings)
            kept
    short_apart :
        {words : List Bytes} {settings : List (Setting S)} {kept : List Bytes} (arg : Arg S) (c : ℕ)
        (value : Bytes)
        → c ≢ b'-'
        → is_single_char c ≡ true
        → find_shortcut c mode ≡ some arg
        → arg.takes_argument ≡ true
        → Spells mode words settings kept
        → Spells mode
            ((b'-' ∷ c ∷ []) ∷ value ∷ words)
            (record { arg = arg; value = some value } ∷ settings)
            kept
    short_plain :
        {words : List Bytes} {settings : List (Setting S)} {kept : List Bytes} (arg : Arg S) (c : ℕ)
        → c ≢ b'-'
        → is_single_char c ≡ true
        → find_shortcut c mode ≡ some arg
        → arg.takes_argument ≡ false
        → Spells mode words settings kept
        → Spells mode ((b'-' ∷ c ∷ []) ∷ words) (record { arg = arg; value = none } ∷ settings) kept
    argument :
        {words : List Bytes} {settings : List (Setting S)} {kept : List Bytes} (word : Bytes)
        → IsArgument word
        → Spells mode words settings kept
        → Spells mode (word ∷ words) settings (word ∷ kept)
