-- ===== src/Tests/Common.antt =====
-- The theorem on src/yc-common.c at a concrete word.
use yapara_c.Prelude.{is_same, [], ◌∷◌, some, true, ◌≡◌}
use yapara_c.Common.{parse_boolean}
use yapara_c.Common.Words.{parse_boolean-meaning}

parse_boolean-meaning_example : parse_boolean (b'y' ∷ b'e' ∷ b's' ∷ []) ≡ some true
unfolding is_same
parse_boolean-meaning_example = parse_boolean-meaning (b'y' ∷ b'e' ∷ b's' ∷ [])
