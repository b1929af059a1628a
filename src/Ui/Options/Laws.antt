-- ===== src/Ui/Options/Laws.antt =====
-- Options that are given are found.
use mathlib.Core.List.{reverse-append}
use yapara_c.Prelude.{
  ℕ, false, [], ◌∷◌, ◌++◌, some, ◌≡◌, ◌≢◌, refl, ◌==◌, if◌then◌else◌, is_same, arith,
}
use yapara_c.Ui.Options.{
  Bytes, Options, options_add, split_eq, add_parsed, options_parse, find_key, options_get,
}

-- A later value hides an earlier one of the same key, and no other.
pub options_get-options_add :
    (o : Options) (key value other : Bytes)
    → options_get (options_add key value o) other
      ≡ (if is_same key other then some value else options_get o other)
unfolding options_get options_add find_key
options_get-options_add o key value other =
    rw (reverse-append o.extra (record { key = key; value = value } ∷ [])) refl

-- There is no '=' in a key.
abbrev pub IsKey : Bytes → Type 0
IsKey [] = Unit
IsKey (c ∷ key) = (c ≢ b'=') × IsKey key

split_eq-IsKey :
    (key value : Bytes) → IsKey key → split_eq (key ++ b'=' ∷ value) ≡ some (key, value)
unfolding split_eq
split_eq-IsKey [] value h = refl
split_eq-IsKey (c ∷ key) value h =
    let other : (c == b'=') ≡ false = ground arith in rw (other, split_eq-IsKey key value h.1) refl

-- `yc_ui_options_parse` of a key, an '=' and any value succeeds where the key is not empty and has no
-- '='. Then `yc_ui_options_get` finds the value for this key, and for every other key what it found
-- before.
pub options_parse-get :
    (o : Options) (c : ℕ) (key value : Bytes)
    → IsKey (c ∷ key)
    → (o' : Options) × (options_parse (c ∷ key ++ b'=' ∷ value) o ≡ some o')
      × ((other : Bytes)
          → options_get o' other
            ≡ (if is_same (c ∷ key) other then some value else options_get o other))
unfolding options_parse add_parsed
options_parse-get o c key value h = (
  options_add (c ∷ key) value o,
  rw (split_eq-IsKey (c ∷ key) value h) refl,
  options_get-options_add o (c ∷ key) value,
)
