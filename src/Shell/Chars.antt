-- ===== src/Shell/Chars.antt =====
-- The lexical helpers of src/yc-shell.c. `isalpha` and `isalnum` are those of the C locale (the
-- program calls no `setlocale`).
use yapara_c.Prelude.{ℕ, suc, ◌+◌, Bool, ◌&&◌, ◌||◌, not, [], ◌∷◌, leb, ◌==◌, if◌then◌else◌, length}
use yapara_c.Shell.Types.{Bytes}

-- `*p`
unfoldable pub peek : Bytes → ℕ
peek [] = 0
peek (c ∷ p) = c

-- `p + 1`, where `*p` is not the NUL
unfoldable pub next : Bytes → Bytes
next [] = []
next (c ∷ p) = p

unfoldable pub is_ifs : ℕ → Bool
is_ifs c = c == b' ' || c == b'\t' || c == b'\n' || c == b'\r'

unfoldable pub is_digit : ℕ → Bool
is_digit c = leb b'0' c && leb c b'9'

unfoldable pub is_alpha : ℕ → Bool
is_alpha c = leb b'a' c && leb c b'z' || leb b'A' c && leb c b'Z'

-- `isalpha (c) || c == '_'`
unfoldable pub is_name_start : ℕ → Bool
unfolding is_alpha
is_name_start c = is_alpha c || c == b'_'

-- `isalnum (c) || c == '_'`
unfoldable pub is_name_char : ℕ → Bool
unfolding is_alpha is_digit
is_name_char c = is_alpha c || is_digit c || c == b'_'

-- The longest prefix of name characters.
unfoldable pub name_prefix : Bytes → Bytes
unfolding is_name_char
name_prefix [] = []
name_prefix (c ∷ p) = if is_name_char c then c ∷ name_prefix p else []

unfoldable pub skip_name : Bytes → Bytes
unfolding is_name_char
skip_name [] = []
skip_name (c ∷ p) = if is_name_char c then skip_name p else c ∷ p

-- `while (is_ifs (*p)) p++;`
unfoldable pub skip_ifs : Bytes → Bytes
unfolding is_ifs
skip_ifs [] = []
skip_ifs (c ∷ p) = if is_ifs c then skip_ifs p else c ∷ p

unfoldable pub skip_digits : Bytes → Bytes
unfolding is_digit
skip_digits [] = []
skip_digits (c ∷ p) = if is_digit c then skip_digits p else c ∷ p

-- The length of `NAME=` if `p` starts a variable assignment, else 0.
unfoldable pub assignment_name_length : Bytes → ℕ
unfolding name_prefix skip_name peek is_name_start next
assignment_name_length p =
    if not (is_name_start (peek p))
    then 0
    else if peek (skip_name (next p)) == b'='
    then suc (length (name_prefix (next p))) + 1
    else 0

unfoldable pub is_redirect_start : Bytes → Bool
unfolding skip_digits peek
is_redirect_start p = peek (skip_digits p) == b'<' || peek (skip_digits p) == b'>'
