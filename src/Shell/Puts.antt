-- ===== src/Shell/Puts.antt =====
-- What `parse_redirect` does to the slots of a line.
use yapara_c.Prelude.{
  ℕ, Bool, true, false, List, [], ◌∷◌, Option, none, some, ◌||◌, not, ◌==◌, if◌then◌else◌,
}
use yapara_c.Prelude.Loop.{Result, ok, error, stuck, ◌>>=◌}
use yapara_c.Shell.Types.{Bytes, Failure, Environment}
use yapara_c.Shell.Chars.{peek, next, is_digit, skip_ifs}
use yapara_c.Shell.FdMap.{FdSlot, FdMap, fdmap_set}
use yapara_c.Shell.Words.{is_nonempty, parse_word}
use yapara_c.Shell.Redirect.{
  read_fd, fd_or, first_or_empty, file_info, ends_dup, dup_info, dup_numbered, redirect_dup,
  redirect_file, redirect_target, redirect_op, redirect_numbered, parse_redirect,
}

-- What a redirection does to the slots `m`, beside what it does to none: it reads the same text,
-- and puts the same slot, if any, over an earlier one of the descriptor.
pub data Puts (m : FdMap) : (alone result : Result Failure (Bytes × FdMap)) → Type 0 where
  nothing_put : {q : Bytes} → Puts m (ok (q, [])) (ok (q, m))
  one_put :
      {q : Bytes} (s : FdSlot) → Puts m (ok (q, s ∷ [])) (ok (q, fdmap_set m s.fd s.order s.info))
  refused : {x : Failure} → Puts m (error x) (error x)
  lost : Puts m stuck stuck

if-Puts :
    {m : FdMap} (b : Bool) {r0 s0 r s : Result Failure (Bytes × FdMap)}
    → Puts m r0 r
    → Puts m s0 s
    → Puts m (if b then r0 else s0) (if b then r else s)
if-Puts true h k = h
if-Puts false h k = k

dup_numbered-Puts :
    (op_at : Bytes) (fd : ℕ) (input : Bool) (m : FdMap) (order : ℕ) (n : Option (ℕ × Bytes))
    → Puts m (dup_numbered op_at fd input [] order n) (dup_numbered op_at fd input m order n)
unfolding dup_numbered fdmap_set
dup_numbered-Puts op_at fd input m order none = refused
dup_numbered-Puts op_at fd input m order (some (target, q)) =
    if-Puts (not (ends_dup (peek q))) refused (
      if-Puts (target == fd) nothing_put
        (one_put (record { fd = fd; info = dup_info input target; order = order })))

redirect_dup-Puts :
    (op_at : Bytes) (fd : ℕ) (input : Bool) (m : FdMap) (order : ℕ) (p : Bytes)
    → Puts m (redirect_dup op_at fd input [] order p) (redirect_dup op_at fd input m order p)
unfolding redirect_dup
redirect_dup-Puts op_at fd input m order p = if-Puts (peek p == b'-') refused (
    if-Puts (not (is_digit (peek p))) refused
      (dup_numbered-Puts op_at fd input m order (read_fd 0 p)))

module _ (e : Environment) where
  redirect_file-Puts :
      (op_at : Bytes) (fd : ℕ) (input append : Bool) (m : FdMap) (order : ℕ)
      (r : Result Failure (Bytes × List Bytes))
      → Puts m
          (r >>= redirect_file e op_at fd input append [] order)
          (r >>= redirect_file e op_at fd input append m order)
  unfolding redirect_file fdmap_set
  redirect_file-Puts op_at fd input append m order (ok (q, target)) =
      if-Puts (is_nonempty (first_or_empty target))
        (one_put (record {
          fd = fd;
          info = file_info input append (first_or_empty target);
          order = order;
        }))
        refused
  redirect_file-Puts op_at fd input append m order (error x) = refused
  redirect_file-Puts op_at fd input append m order stuck = lost

  redirect_target-Puts :
      (op_at : Bytes) (fd : ℕ) (input append : Bool) (m : FdMap) (order : ℕ) (p : Bytes)
      → Puts m
          (redirect_target e op_at fd input append [] order p)
          (redirect_target e op_at fd input append m order p)
  unfolding redirect_target
  redirect_target-Puts op_at fd input append m order p =
      if-Puts (peek p == b'&') (redirect_dup-Puts op_at fd input m order (next p))
        (redirect_file-Puts op_at fd input append m order (parse_word e false (skip_ifs p) []))

  redirect_op-Puts :
      (op_at : Bytes) (fd : Option ℕ) (m : FdMap) (order : ℕ) (p : Bytes)
      → Puts m (redirect_op e op_at fd [] order p) (redirect_op e op_at fd m order p)
  unfolding redirect_op
  redirect_op-Puts op_at fd m order p =
      if-Puts (peek p == b'<')
        (if-Puts (peek (next p) == b'<' || peek (next p) == b'>') refused
          (redirect_target-Puts op_at (fd_or fd 0) true false m order (next p)))
        (if-Puts (peek (next p) == b'>')
          (redirect_target-Puts op_at (fd_or fd 1) false true m order (next (next p)))
          (if-Puts (peek (next p) == b'|') refused
            (redirect_target-Puts op_at (fd_or fd 1) false false m order (next p))))

  redirect_numbered-Puts :
      (op_at : Bytes) (m : FdMap) (order : ℕ) (n : Option (ℕ × Bytes))
      → Puts m (redirect_numbered e op_at [] order n) (redirect_numbered e op_at m order n)
  unfolding redirect_numbered
  redirect_numbered-Puts op_at m order none = refused
  redirect_numbered-Puts op_at m order (some (fd, q)) = redirect_op-Puts op_at (some fd) m order q

  pub parse_redirect-Puts :
      (m : FdMap) (order : ℕ) (p : Bytes)
      → Puts m (parse_redirect e [] order p) (parse_redirect e m order p)
  unfolding parse_redirect
  parse_redirect-Puts m order p =
      if-Puts (is_digit (peek p)) (redirect_numbered-Puts p m order (read_fd 0 p))
        (redirect_op-Puts p none m order p)
