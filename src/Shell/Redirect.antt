-- ===== src/Shell/Redirect.antt =====
-- `parse_assignment` and `parse_redirect` of src/yc-shell.c.
use yapara_c.Prelude.{
  ℕ, ◌+◌, ◌*◌, ◌-◌, Bool, true, false, ◌||◌, not, List, [], ◌∷◌, ◌++◌, Option, none, some, ltb,
  ◌==◌, if◌then◌else◌, take, drop,
}
use yapara_c.Prelude.Loop.{Result, ok, ◌>>=◌}
use yapara_c.Shell.Types.{
  Bytes, syntax, unsupported, Failure, mode_file, mode_dup, FdInfo, Environment,
}
use yapara_c.Shell.Chars.{peek, next, is_ifs, is_digit, skip_ifs, assignment_name_length}
use yapara_c.Shell.FdMap.{FdMap, fdmap_set}
use yapara_c.Shell.Words.{fail, is_nonempty, parse_word}

-- The digits of an fd number onto `v`; `none` once the number is above 1024.
unfoldable pub read_fd : ℕ → Bytes → Option (ℕ × Bytes)
read_fd v [] = some (v, [])
read_fd v (c ∷ p) =
    let w = v * 10 + (c - b'0') in
    let rest = read_fd w p in
    if is_digit c then (if ltb 1024 w then none else rest) else some (v, c ∷ p)

abbrev pub fd_or : Option ℕ → ℕ → ℕ
fd_or none d = d
fd_or (some fd) d = fd

-- `argv[0]`, where there is one
abbrev pub first_or_empty : List Bytes → Bytes
first_or_empty [] = []
first_or_empty (w ∷ ws) = w

-- The slot that `N>&M` fills in; the flag says that the redirection is an input.
abbrev pub dup_info : Bool → ℕ → FdInfo
dup_info input target = record {
  is_in = input;
  is_out = not input;
  mode = mode_dup;
  filename = none;
  append = false;
  dup_fd = target;
}

abbrev pub file_info : Bool → Bool → Bytes → FdInfo
file_info input append filename = record {
  is_in = input;
  is_out = not input;
  mode = mode_file;
  filename = some filename;
  append = append;
  dup_fd = 0;
}

-- Whether a byte (0 for the end) may follow the number of `N>&M`.
unfoldable pub ends_dup : ℕ → Bool
ends_dup c = c == 0 || is_ifs c || c == b'<' || c == b'>'

-- The number of `N>&M` was read. `op_at` is the start of the redirection.
unfoldable pub dup_numbered :
    Bytes → ℕ → Bool → FdMap → ℕ → Option (ℕ × Bytes) → Result Failure (Bytes × FdMap)
dup_numbered op_at fd input m order none = fail unsupported op_at
dup_numbered op_at fd input m order (some (target, q)) =
    if not (ends_dup (peek q))
    then fail syntax q
    else if target == fd
    then ok (q, m)
    else ok (q, fdmap_set m fd order (dup_info input target))

-- Behind the `&` of `N>&M`.
unfoldable pub redirect_dup : Bytes → ℕ → Bool → FdMap → ℕ → Bytes → Result Failure (Bytes × FdMap)
redirect_dup op_at fd input m order p =
    if peek p == b'-'
    then fail unsupported op_at
    else if not (is_digit (peek p))
    then fail unsupported op_at
    else dup_numbered op_at fd input m order (read_fd 0 p)

module _ (e : Environment) where
  -- What becomes of the word behind the operator.
  unfoldable pub redirect_file :
      Bytes → ℕ → Bool → Bool → FdMap → ℕ → Bytes × List Bytes → Result Failure (Bytes × FdMap)
  redirect_file op_at fd input append m order (q, target) =
      if is_nonempty (first_or_empty target)
      then ok (q, fdmap_set m fd order (file_info input append (first_or_empty target)))
      else fail syntax op_at

  -- Behind the operator.
  unfoldable pub redirect_target :
      Bytes → ℕ → Bool → Bool → FdMap → ℕ → Bytes → Result Failure (Bytes × FdMap)
  redirect_target op_at fd input append m order p =
      if peek p == b'&' then redirect_dup op_at fd input m order (next p) else (do
        w ← parse_word e false (skip_ifs p) []
        redirect_file op_at fd input append m order w)

  -- At the operator, with the fd in front of it.
  unfoldable pub redirect_op : Bytes → Option ℕ → FdMap → ℕ → Bytes → Result Failure (Bytes × FdMap)
  redirect_op op_at fd m order p =
      let q = next p in
      if peek p == b'<'
      then (if peek q == b'<' || peek q == b'>'
          then fail unsupported op_at
          else redirect_target op_at (fd_or fd 0) true false m order q)
      else if peek q == b'>'
      then redirect_target op_at (fd_or fd 1) false true m order (next q)
      else if peek q == b'|'
      then fail unsupported op_at
      else redirect_target op_at (fd_or fd 1) false false m order q

  -- What follows the digits in front of the operator, if there are any.
  unfoldable pub redirect_numbered :
      Bytes → FdMap → ℕ → Option (ℕ × Bytes) → Result Failure (Bytes × FdMap)
  redirect_numbered op_at m order none = fail unsupported op_at
  redirect_numbered op_at m order (some (fd, q)) = redirect_op op_at (some fd) m order q

  unfoldable pub parse_redirect : FdMap → ℕ → Bytes → Result Failure (Bytes × FdMap)
  parse_redirect m order p =
      if is_digit (peek p)
      then redirect_numbered p m order (read_fd 0 p)
      else redirect_op p none m order p

  unfoldable pub parse_assignment : Bytes → List Bytes → Result Failure (Bytes × List Bytes)
  parse_assignment p assigns = do
    (q, value) ← parse_word e false (drop (assignment_name_length p) p) []
    ok (q, assigns ++ (take (assignment_name_length p) p ++ first_or_empty value) ∷ [])
