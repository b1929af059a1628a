-- ===== src/Cmdline/Handlers.antt =====
-- The handlers of src/yc-cmdline.c, and how options are added.
use yapara_c.Prelude.{
  Bool, true, false, not, List, [], ◌∷◌, ◌++◌, Option, none, some, ◌==◌, if◌then◌else◌, length,
  is_same,
}
use yapara_c.Common.{parse_boolean}
use yapara_c.Cmdline.{Bytes, Arg}

abbrev pub flip_if : Bool → Bool → Bool
flip_if reversed value = if reversed then not value else value

abbrev pub flip_parsed : Bool → Option Bool → Option Bool
flip_parsed reversed none = none
flip_parsed reversed (some value) = some (flip_if reversed value)

-- `cmdline_handle_boolean`: the value, and `none` where the result is false.
unfoldable pub handle_boolean : (reversed : Bool) → Option Bytes → Option Bool
handle_boolean reversed none = some (flip_if reversed true)
handle_boolean reversed (some text) = flip_parsed reversed (parse_boolean text)

module _ {V : Type 0} (strto : Bytes → V × Bytes) where
  -- `cmdline_handle_int` and its kin, before the value is stored; `strto` stands for the function of
  -- the C library, with the number and what follows it. Such an option always has an argument.
  unfoldable pub handle_number : Option Bytes → Option V
  handle_number none = none
  handle_number (some text) =
      let (v, end_text) = strto text in
      if length end_text == length text then none else if length end_text == 0 then some v else none

-- `cmdline_handle_string`
abbrev pub handle_string : Option Bytes → Option (Option Bytes)
handle_string text = some text

module _ {S V : Type 0} where
  -- A value that is put into a variable.
  abbrev pub store_in : (V → S → S) → Option V → S → Option S
  store_in put none vars = none
  store_in put (some v) vars = some (put v vars)

module _ {S : Type 0} where
  abbrev pub has_option : Bytes → List (Arg S) → Bool
  has_option name [] = false
  has_option name (arg ∷ args) =
      let rest = has_option name args in if is_same name arg.option_name then true else rest

  -- `add_option`; `none` is the end of the program.
  unfoldable pub add_option : Arg S → List (Arg S) → Option (List (Arg S))
  add_option arg args = if has_option arg.option_name args then none else some (args ++ arg ∷ [])

  -- `yc_cmdline_add_int` and its kin, and `yc_cmdline_add_string`
  unfoldable pub add_value :
      Bytes
      → (mandatory : Bool) → (Option Bytes → S → Option S)
      → List (Arg S)
      → Option (List (Arg S))
  add_value name mandatory func = add_option (record {
    option_name = name;
    takes_argument = true;
    optional = false;
    mandatory = mandatory;
    func = func;
  })

  -- `yc_cmdline_add_boolean`
  unfoldable pub add_boolean :
      Bytes
      → (has_description mandatory reversed : Bool) (put : Bool → S → S) → List (Arg S)
      → Option (List (Arg S))
  add_boolean name has_description mandatory reversed put = add_option (record {
    option_name = name;
    takes_argument = has_description;
    optional = false;
    mandatory = mandatory;
    func = λ text vars. store_in put (handle_boolean reversed text) vars;
  })
