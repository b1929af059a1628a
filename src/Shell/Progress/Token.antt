-- ===== src/Shell/Progress/Token.antt =====
-- How far redirections and assignments move `st->p`, and that `parse_line` ends.
use yapara_c.Prelude.{
  ℕ, ◌+◌, ◌-◌, ◌*◌, ◌≤◌, ◌<◌, Bool, true, false, List, [], ◌∷◌, Option, none, some, ◌≡◌, ◌≢◌, refl,
  ap, ◌||◌, arith, length, take, ◌++◌, ◌==◌, drop, length-drop,
}
use yapara_c.Prelude.Loop.{
  again, stop, hang, Result, ok, error, stuck, ◌>>=◌, Decreases, run-ne-stuck, bind-ne-stuck,
}
use yapara_c.Shell.Types.{Bytes, Failure, Environment}
use yapara_c.Shell.Chars.{
  peek, next, skip_digits, skip_ifs, is_ifs, is_redirect_start, assignment_name_length,
}
use yapara_c.Shell.FdMap.{FdMap}
use yapara_c.Shell.Words.{parse_word}
use yapara_c.Shell.Redirect.{
  fd_or, read_fd, dup_numbered, redirect_dup, redirect_file, redirect_target, first_or_empty,
  redirect_op, redirect_numbered, parse_redirect, parse_assignment,
}
use yapara_c.Shell.Line.{
  LineState, token_step, line_step, check_line, bump, parse_line, shell_parse, finish_line,
  finish_parse,
}
use yapara_c.Shell.Progress.Word.{
  length-next, length-skip_ifs, WordWithin, parse_word-Within, parse_word-shorter,
}

-- A redirection returns, with at most `n` bytes left.
abbrev RedirectWithin : ℕ → Result Failure (Bytes × FdMap) → Type 0
RedirectWithin n (ok (p, m)) = length p ≤ n
RedirectWithin n (error x) = Unit
RedirectWithin n stuck = ⊥

abbrev NumberWithin : Bytes → Option (ℕ × Bytes) → Type 0
NumberWithin p none = Unit
NumberWithin p (some (v, q)) = (q ≡ skip_digits p) × (length q ≤ length p)

read_fd-Within : (p : Bytes) (v : ℕ) → NumberWithin p (read_fd v p)
unfolding read_fd skip_digits
read_fd-Within [] v = (refl, omega arith)
read_fd-Within (c ∷ p) v = ground (arith, read_fd-Within p (v * 10 + (c - b'0')))

dup_numbered-Within :
    (op_at : Bytes) (fd : ℕ) (input : Bool) (m : FdMap) (order : ℕ) (p : Bytes)
    (n : Option (ℕ × Bytes))
    → NumberWithin p n
    → RedirectWithin (length p) (dup_numbered op_at fd input m order n)
unfolding dup_numbered
dup_numbered-Within op_at fd input m order p none h = tt
dup_numbered-Within op_at fd input m order p (some (v, q)) h = ground arith

redirect_dup-Within :
    (op_at : Bytes) (fd : ℕ) (input : Bool) (m : FdMap) (order : ℕ) (p : Bytes)
    → RedirectWithin (length p) (redirect_dup op_at fd input m order p)
unfolding redirect_dup
redirect_dup-Within op_at fd input m order p =
    ground (arith, dup_numbered-Within op_at fd input m order p (read_fd 0 p) (read_fd-Within p 0))

length-skip_digits : (p : Bytes) → length (skip_digits p) ≤ length p
unfolding skip_digits
length-skip_digits [] = omega arith
length-skip_digits (c ∷ p) = ground (arith, length-skip_digits p)

next-cons : (c : ℕ) (p : Bytes) → next (c ∷ p) ≡ p
unfolding next
next-cons c p = refl

-- Where an operator stands, a byte can be taken.
next-shorter : (q : Bytes) → (peek q == b'<' || peek q == b'>') ≡ true → length (next q) < length q
unfolding peek next
next-shorter [] h = cc
next-shorter (c ∷ q) h = omega arith

no_operator :
    (c : ℕ) (p : Bytes) → is_redirect_start (c ∷ p) ≡ false → (c == b'<' || c == b'>') ≡ false
unfolding is_redirect_start
no_operator c p h = ground arith

-- The end, or a byte that is no blank.
abbrev StartsToken : Bytes → Type 0
StartsToken [] = Unit
StartsToken (c ∷ p) = is_ifs c ≡ false

skip_ifs-StartsToken : (p : Bytes) → StartsToken (skip_ifs p)
unfolding skip_ifs
skip_ifs-StartsToken [] = tt
skip_ifs-StartsToken (c ∷ p) = ground (arith, skip_ifs-StartsToken p)

module _ (e : Environment) where
  redirect_file-Within :
      (op_at : Bytes) (fd : ℕ) (input append : Bool) (m : FdMap) (order n : ℕ)
      (r : Result Failure (Bytes × List Bytes))
      → WordWithin n r
      → RedirectWithin n (r >>= redirect_file e op_at fd input append m order)
  unfolding redirect_file
  redirect_file-Within op_at fd input append m order n (ok (q, target)) h = ground arith
  redirect_file-Within op_at fd input append m order n (error x) h = tt
  redirect_file-Within op_at fd input append m order n stuck h = h

  redirect_target-Within :
      (op_at : Bytes) (fd : ℕ) (input append : Bool) (m : FdMap) (order : ℕ) (p : Bytes)
      → RedirectWithin (length p) (redirect_target e op_at fd input append m order p)
  unfolding redirect_target
  redirect_target-Within op_at fd input append m order p = ground (
    arith,
    redirect_dup-Within op_at fd input m order (next p),
    length-next p,
    length-skip_ifs p,
    redirect_file-Within op_at fd input append m order (length (skip_ifs p)) _
        (parse_word-Within e false (skip_ifs p) []),
  )

  redirect_op-Within :
      (op_at : Bytes) (fd : Option ℕ) (m : FdMap) (order : ℕ) (p : Bytes)
      → RedirectWithin (length (next p)) (redirect_op e op_at fd m order p)
  unfolding redirect_op
  redirect_op-Within op_at fd m order p = ground (
    arith,
    redirect_target-Within op_at (fd_or fd 0) true false m order (next p),
    redirect_target-Within op_at (fd_or fd 1) false true m order (next (next p)),
    redirect_target-Within op_at (fd_or fd 1) false false m order (next p),
    length-next (next p),
  )

  redirect_numbered-Within :
      (op_at p : Bytes) (m : FdMap) (order : ℕ) (r : Option (ℕ × Bytes))
      → NumberWithin p r
      → length (next (skip_digits p)) < length p
      → RedirectWithin (length p - 1) (redirect_numbered e op_at m order r)
  unfolding redirect_numbered
  redirect_numbered-Within op_at p m order none w h = tt
  redirect_numbered-Within op_at p m order (some (fd, q)) (same, w) h =
      ground (arith, redirect_op-Within op_at (some fd) m order q, ap next same)

  -- A redirection takes a byte.
  parse_redirect-Within :
      (m : FdMap) (order c : ℕ) (p : Bytes)
      → is_redirect_start (c ∷ p) ≡ true
      → RedirectWithin (length p) (parse_redirect e m order (c ∷ p))
  unfolding parse_redirect is_redirect_start
  parse_redirect-Within m order c p h = ground (
    arith,
    next-shorter (skip_digits (c ∷ p)) h,
    length-skip_digits (c ∷ p),
    redirect_numbered-Within (c ∷ p) (c ∷ p) m order (read_fd 0 (c ∷ p)) (read_fd-Within (c ∷ p) 0),
    redirect_op-Within (c ∷ p) none m order (c ∷ p),
    next-cons c p,
  )

  parse_assignment-Within :
      (p : Bytes) (assigns : List Bytes)
      → WordWithin (length p - assignment_name_length p) (parse_assignment e p assigns)
  unfolding parse_assignment
  parse_assignment-Within p assigns =
      value_of (parse_word e false (drop (assignment_name_length p) p) []) (
        rw (← length-drop (assignment_name_length p) p)
          (parse_word-Within e false (drop (assignment_name_length p) p) []))
    where
      value_of :
          (r : Result Failure (Bytes × List Bytes))
          → WordWithin (length p - assignment_name_length p) r
          → WordWithin (length p - assignment_name_length p) (
              r >>= λ w.
              ok (w.0, assigns ++ (take (assignment_name_length p) p ++ first_or_empty w.1) ∷ []))
      value_of (ok (q, value)) h = h
      value_of (error x) h = tt
      value_of stuck h = h

  -- Each token takes a byte.
  token_step-cons :
      (c : ℕ) (p : Bytes) (s s' : LineState)
      → is_ifs c ≡ false
      → s.p ≡ c ∷ p
      → token_step e s ≡ again s'
      → length s'.p ≤ length p
  unfolding token_step
  token_step-cons c p s s' b q h = ground (
    arith,
    no_operator c p,
    parse_redirect-Within s.fdmap (bump s.order) c p,
    parse_assignment-Within (c ∷ p) s.assigns,
    parse_word-shorter e true c p s.args,
  )

  token_step-down :
      (p : Bytes) (s s' : LineState)
      → s.p ≡ p
      → StartsToken p
      → token_step e s ≡ again s'
      → length s'.p < length p
  unfolding token_step peek
  token_step-down [] s s' q b h = ground arith
  token_step-down (c ∷ p) s s' q b h = omega (arith, token_step-cons c p s s' b q h)

  token_step-stop : (s s' : LineState) → token_step e s ≡ stop s' → s' ≡ s
  unfolding token_step
  token_step-stop s s' h = ground arith

  pub line_step-Decreases : Decreases (λ s. length s.p) (line_step e)
  unfolding line_step
  line_step-Decreases s s' h = omega (
    arith,
    length-skip_ifs s.p,
    token_step-down (skip_ifs s.p) (record s { p = skip_ifs s.p }) s' refl
        (skip_ifs-StartsToken s.p) h,
  )

  token_step-live : (p : Bytes) (s : LineState) → s.p ≡ p → token_step e s ≢ hang
  unfolding token_step peek
  token_step-live [] s q = ground arith
  token_step-live (c ∷ p) s q = ground (
    arith,
    parse_redirect-Within s.fdmap (bump s.order) c p,
    parse_assignment-Within (c ∷ p) s.assigns,
    parse_word-Within e true (c ∷ p) s.args,
  )

  line_step-live : (s : LineState) → line_step e s ≢ hang
  unfolding line_step
  line_step-live s = token_step-live (skip_ifs s.p) (record s { p = skip_ifs s.p }) refl

  parse_line-ne-stuck : (cmdline : Bytes) → parse_line e cmdline ≢ stuck
  unfolding parse_line check_line
  parse_line-ne-stuck cmdline =
      bind-ne-stuck _ (check_line e)
        (run-ne-stuck (λ s. length s.p) (line_step e) line_step-Decreases line_step-live _)
        (λ s q. ground arith)

  -- The parse of a line always ends: with a child to create or with an error.
  pub shell_parse-ne-stuck :
      (cmdline : Option Bytes) (fallback : Bool) → shell_parse e cmdline fallback ≢ stuck
  unfolding shell_parse finish_parse finish_line
  shell_parse-ne-stuck none fallback = λ h. cc
  shell_parse-ne-stuck (some cmdline) fallback =
      by_line (parse_line e cmdline) (parse_line-ne-stuck cmdline)
    where
      by_line :
          (r : Result Failure LineState) → r ≢ stuck → finish_parse e cmdline fallback r ≢ stuck
      by_line (ok s) h = ground arith
      by_line (error x) h = ground arith
      by_line stuck h = absurd (h refl)
