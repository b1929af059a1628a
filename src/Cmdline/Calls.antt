-- ===== src/Cmdline/Calls.antt =====
-- The words of one option call its handler.
use yapara_c.Prelude.{
  ℕ, Bool, true, false, ◌&&◌, not, List, [], ◌∷◌, ◌++◌, none, some, ◌≡◌, ◌≢◌, refl, ap, ◌∙◌, arith,
  ◌==◌, if◌then◌else◌,
}
use yapara_c.Prelude.Loop.{throw}
use yapara_c.Cmdline.{
  Bytes, Arg, Mode, argument_not_allowed, invalid_shortcut, State, find_arg, find_shortcut,
}
use yapara_c.Cmdline.Process.{
  is_single_char, after_func, call_with_next, long_known, long_found, short_found, dashed,
  take_word, args_step,
}
use yapara_c.Cmdline.Spelling.{HasNoEq, after_eq-name, after_eq-value, find_arg-eq, Setting}

module _ {S : Type 0} (mode : Mode S) where
  dashed-long :
      (opt : Bytes) (more : List Bytes) (s : State S)
      → dashed mode (b'-' ∷ opt) more s ≡ long_found mode (find_arg opt mode.args) opt more s
  unfolding dashed
  dashed-long [] more s = refl
  dashed-long (d ∷ chars) more s = refl

  -- A word that calls a handler with these words.
  abbrev pub CallsWith : List Bytes → ℕ → Setting S → State S → Type 0
  CallsWith words n x s =
      args_step mode words s ≡ after_func mode n x.arg (x.arg.func x.value s.vars) s

  pub joined-CallsWith :
      (arg : Arg S) (name value : Bytes) (more : List Bytes) (s : State S)
      → HasNoEq name
      → find_arg name mode.args ≡ some arg
      → arg.takes_argument ≡ true
      → CallsWith
          ((b'-' ∷ b'-' ∷ name ++ b'=' ∷ value) ∷ more)
          1
          (record { arg = arg; value = some value })
          s
  unfolding args_step take_word long_found long_known
  joined-CallsWith arg name value more s h found takes =
      dashed-long (name ++ b'=' ∷ value) more s
      ∙ ap (λ o. long_found mode o (name ++ b'=' ∷ value) more s)
          (find_arg-eq name value mode.args h ∙ found)
      ∙ ap (λ v. long_known mode arg v more s) (after_eq-value name value h)
      ∙ ap
          (λ (b : Bool).
            if not b
            then throw argument_not_allowed
            else after_func mode 1 arg (arg.func (some value) s.vars) s)
          takes

  pub apart-CallsWith :
      (arg : Arg S) (name value : Bytes) (more : List Bytes) (s : State S)
      → HasNoEq name
      → find_arg name mode.args ≡ some arg
      → (arg.takes_argument && not arg.optional) ≡ true
      → CallsWith
          ((b'-' ∷ b'-' ∷ name) ∷ value ∷ more)
          2
          (record { arg = arg; value = some value })
          s
  unfolding args_step take_word long_found long_known call_with_next
  apart-CallsWith arg name value more s h found takes =
      dashed-long name (value ∷ more) s
      ∙ ap (λ o. long_found mode o name (value ∷ more) s) found
      ∙ ap (λ v. long_known mode arg v (value ∷ more) s) (after_eq-name name h)
      ∙ rw takes refl

  pub plain-CallsWith :
      (arg : Arg S) (name : Bytes) (more : List Bytes) (s : State S)
      → HasNoEq name
      → find_arg name mode.args ≡ some arg
      → (arg.takes_argument && not arg.optional) ≡ false
      → CallsWith ((b'-' ∷ b'-' ∷ name) ∷ more) 1 (record { arg = arg; value = none }) s
  unfolding args_step take_word long_found long_known
  plain-CallsWith arg name more s h found takes =
      dashed-long name more s
      ∙ ap (λ o. long_found mode o name more s) found
      ∙ ap (λ v. long_known mode arg v more s) (after_eq-name name h)
      ∙ rw takes refl

  dashed-short :
      (c : ℕ) (more : List Bytes) (s : State S)
      → c ≢ b'-'
      → dashed mode (c ∷ []) more s ≡ short_found mode (find_shortcut c mode) c more s
  unfolding dashed
  dashed-short c more s h = let other : (c == b'-') ≡ false = ground arith in rw other refl

  pub short_apart-CallsWith :
      (arg : Arg S) (c : ℕ) (value : Bytes) (more : List Bytes) (s : State S)
      → c ≢ b'-'
      → is_single_char c ≡ true
      → find_shortcut c mode ≡ some arg
      → arg.takes_argument ≡ true
      → CallsWith ((b'-' ∷ c ∷ []) ∷ value ∷ more) 2 (record { arg = arg; value = some value }) s
  unfolding args_step take_word short_found call_with_next
  short_apart-CallsWith arg c value more s h single found takes =
      dashed-short c (value ∷ more) s h
      ∙ ap (λ o. short_found mode o c (value ∷ more) s) found
      ∙ ap
          (λ (b : Bool).
            if not b
            then throw invalid_shortcut
            else if arg.takes_argument
            then after_func mode 2 arg (arg.func (some value) s.vars) s
            else after_func mode 1 arg (arg.func none s.vars) s)
          single
      ∙ ap
          (λ (b : Bool).
            if b
            then after_func mode 2 arg (arg.func (some value) s.vars) s
            else after_func mode 1 arg (arg.func none s.vars) s)
          takes

  pub short_plain-CallsWith :
      (arg : Arg S) (c : ℕ) (more : List Bytes) (s : State S)
      → c ≢ b'-'
      → is_single_char c ≡ true
      → find_shortcut c mode ≡ some arg
      → arg.takes_argument ≡ false
      → CallsWith ((b'-' ∷ c ∷ []) ∷ more) 1 (record { arg = arg; value = none }) s
  unfolding args_step take_word short_found
  short_plain-CallsWith arg c more s h single found takes =
      dashed-short c more s h
      ∙ ap (λ o. short_found mode o c more s) found
      ∙ ap
          (λ (b : Bool).
            if not b
            then throw invalid_shortcut
            else if arg.takes_argument
            then call_with_next mode arg more s
            else after_func mode 1 arg (arg.func none s.vars) s)
          single
      ∙ ap
          (λ (b : Bool).
            if b
            then call_with_next mode arg more s
            else after_func mode 1 arg (arg.func none s.vars) s)
          takes
