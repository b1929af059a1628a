-- ===== src/Ui/Options.antt =====
-- Options of a user interface: named values, and whether output is coloured.
pub mod Laws
use mathlib.Core.List.{reverse}
use yapara_c.Prelude.{
  ℕ, zero, suc, ◌+◌, ◌%◌, ◌^◌, ◌<◌, ◌≤◌, Bool, true, false, not, ◌&&◌, ◌||◌, List, [], ◌∷◌, ◌++◌,
  Option, none, some, ltb, leb, ◌==◌, if◌then◌else◌, is_same, get_or,
}
use yapara_c.Common.{parse_boolean}

abbrev pub Bytes : Type 0
Bytes = List ℕ

-- `YcUIOptionKV`
pub record OptionKv : Type 0 where
  pub key : Bytes
  pub value : Bytes

-- `YcUIColorWhen`
pub data ColorWhen : Type 0 where
  auto always never : ColorWhen

-- `YcUIIndexFormat`; the base is hexadecimal or decimal.
pub record IndexFormat : Type 0 where
  pub hex : Bool
  pub width : ℕ
  pub zero_pad : Bool

-- `YcUIOptions`
pub record Options : Type 0 where
  pub index_format : IndexFormat
  pub color : ColorWhen
  pub out_dir : Option Bytes
  pub extra : List OptionKv

-- `yc_ui_options_init`
unfoldable pub options_init : Options
options_init = record {
  index_format = record { hex = false; width = 0; zero_pad = false };
  color = auto;
  out_dir = none;
  extra = [];
}

-- `yc_ui_options_clear`
unfoldable pub options_clear : Options → Options
options_clear o = record o { extra = [] }

-- `yc_ui_options_add`
unfoldable pub options_add : Bytes → Bytes → Options → Options
options_add key value o = record o { extra = o.extra ++ record { key = key; value = value } ∷ [] }

-- What is before the first '=', and what is behind it.
unfoldable pub split_eq : Bytes → Option (Bytes × Bytes)
split_eq [] = none
split_eq (c ∷ text) =
    let rest : Option (Bytes × Bytes) = elim (split_eq text) [
      | none ↦ none
      | some (key, value) ↦ some (c ∷ key, value)
    ] in
    if c == b'=' then some ([], text) else rest

-- `yc_ui_options_parse`; `none` is the result false.
unfoldable pub add_parsed : Option (Bytes × Bytes) → Options → Option Options
add_parsed none o = none
add_parsed (some ([], value)) o = none
add_parsed (some (c ∷ key, value)) o = some (options_add (c ∷ key) value o)

unfoldable pub options_parse : Bytes → Options → Option Options
options_parse key_eq_value = add_parsed (split_eq key_eq_value)

-- The loop of `yc_ui_options_get`, over the options from the last one back.
unfoldable pub find_key : Bytes → List OptionKv → Option Bytes
find_key key [] = none
find_key key (kv ∷ kvs) =
    let rest = find_key key kvs in if is_same kv.key key then some kv.value else rest

-- `yc_ui_options_get`
unfoldable pub options_get : Options → Bytes → Option Bytes
options_get o key = find_key key (reverse o.extra)

-- `yc_ui_options_get_bool`; `none` is the end of the program.
unfoldable pub bool_or : Bool → Option Bytes → Option Bool
bool_or default none = some default
bool_or default (some value) = parse_boolean value

unfoldable pub options_get_bool : Options → Bytes → Bool → Option Bool
options_get_bool o key default = bool_or default (options_get o key)

module _ (strtoul : Bytes → ℕ × Bytes) where
  -- `yc_ui_options_get_uint`; `strtoul` gives the number and what follows it, and `none` is the end of
  -- the program.
  unfoldable pub uint_or : ℕ → Option Bytes → Option ℕ
  uint_or default none = some default
  uint_or default (some []) = none
  uint_or default (some (c ∷ value)) =
      let (rv, end_text) = strtoul (c ∷ value) in
      elim end_text [ [] ↦ if ltb 0xffffffff rv then none else some rv | d ∷ text ↦ none ]

  unfoldable pub options_get_uint : Options → Bytes → ℕ → Option ℕ
  options_get_uint o key default = uint_or default (options_get o key)

abbrev pub text_auto : Bytes
text_auto = b'a' ∷ b'u' ∷ b't' ∷ b'o' ∷ []

abbrev pub text_always : Bytes
text_always = b'a' ∷ b'l' ∷ b'w' ∷ b'a' ∷ b'y' ∷ b's' ∷ []

abbrev pub text_never : Bytes
text_never = b'n' ∷ b'e' ∷ b'v' ∷ b'e' ∷ b'r' ∷ []

abbrev pub text_dumb : Bytes
text_dumb = b'd' ∷ b'u' ∷ b'm' ∷ b'b' ∷ []

abbrev pub when_boolean : Option Bool → Option ColorWhen
when_boolean none = none
when_boolean (some true) = some always
when_boolean (some false) = some never

-- `yc_ui_parse_color_when`; `none` is the result false.
unfoldable pub parse_color_when : Option Bytes → Option ColorWhen
parse_color_when none = some always
parse_color_when (some text) =
    if is_same text text_auto
    then some auto
    else if is_same text text_always
    then some always
    else if is_same text text_never
    then some never
    else when_boolean (parse_boolean text)

abbrev pub is_set : Option Bytes → Bool
is_set none = false
is_set (some []) = false
is_set (some (c ∷ value)) = true

abbrev pub is_dumb : Option Bytes → Bool
is_dumb none = false
is_dumb (some term) = is_same term text_dumb

-- `yc_ui_options_colorize`, with the values of NO_COLOR and TERM, and whether stdout is a terminal.
unfoldable pub colorize : (no_color term : Option Bytes) → Bool → ColorWhen → Bool
colorize no_color term tty always = true
colorize no_color term tty never = false
colorize no_color term tty auto = if is_set no_color || is_dumb term then false else tty

abbrev pub sgr : ℕ → ℕ → Bytes
sgr a b = 27 ∷ b'[' ∷ a ∷ b ∷ b'm' ∷ []

-- `job_colors`
abbrev pub job_colors : List Bytes
job_colors =
    sgr b'3' b'1'
    ∷ sgr b'3' b'2'
    ∷ sgr b'3' b'3'
    ∷ sgr b'3' b'4'
    ∷ sgr b'3' b'5'
    ∷ sgr b'3' b'6'
    ∷ sgr b'9' b'1'
    ∷ sgr b'9' b'2'
    ∷ sgr b'9' b'3'
    ∷ sgr b'9' b'4'
    ∷ sgr b'9' b'5'
    ∷ sgr b'9' b'6'
    ∷ []

-- `yc_ui_job_color`, of the job with an index
unfoldable pub job_color : Bool → ℕ → Bytes
job_color colorize index = if colorize then get_or job_colors (index % 12) [] else []

-- `yc_ui_color_reset`
unfoldable pub color_reset : Bool → Bytes
color_reset colorize = if colorize then 27 ∷ b'[' ∷ b'0' ∷ b'm' ∷ [] else []
