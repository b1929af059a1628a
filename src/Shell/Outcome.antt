-- ===== src/Shell/Outcome.antt =====
-- What `yc_shell_parse` returns, on each of its ways out.
use native.Mathlib.Decide.{dec_lt}
use yapara_c.Prelude.{
  lt→ltb, ℕ, zero, suc, ◌≤◌, ◌<◌, Bool, true, false, not, List, [], ◌∷◌, Option, none, some, ◌≡◌,
  ◌≢◌, inl, inr, refl, sym, ap, ◌∙◌, arith, ltb, ◌==◌, if◌then◌else◌, Bool-cases, length, get_elem?,
  set, length-set,
}
use yapara_c.Prelude.Loop.{Result, ok, error, stuck}
use yapara_c.Shell.Types.{
  Bytes, mode_inherit, Failure, ShellError, FdInfo, OtherFdInfo, CreateInfo, Environment,
}
use yapara_c.Shell.FdMap.{FdSlot, FdMap, fdmap_get}
use yapara_c.Shell.FdMap.Laws.{AllSlots, IsDistinct, Clashes, last_of}
use yapara_c.Shell.Env.{build_env}
use yapara_c.Shell.Slots.{Reads, parse_line-slots}
use yapara_c.Shell.Line.{
  is_empty_list, codes, LineState, parse_line, is_unsupported, make_sh_c, finish_line, shell_parse,
  build_create_info, put_info, std_fd_infos, other_fd_infos, default_fd_infos, finish_parse,
}

abbrev inherits : Bool → FdInfo
inherits input = record {
  is_in = input;
  is_out = not input;
  mode = mode_inherit;
  filename = none;
  append = false;
  dup_fd = 0;
}

-- The three standard descriptors as they are.
abbrev pub inherited : List FdInfo
inherited = inherits true ∷ inherits false ∷ inherits false ∷ []

-- `/bin/sh` with the arguments `sh`, `-c` and the line, in the same environment and with the same
-- three descriptors.
abbrev pub sh_c : Bytes → CreateInfo
sh_c cmdline = record {
  env = none;
  argv = codes "sh" ∷ codes "-c" ∷ cmdline ∷ [];
  program = some (codes "/bin/sh");
  fd_infos = inherited;
  other_fd_infos = [];
}

-- The fallback: an unsupported line becomes `sh -c` with the line itself.
abbrev pub or_sh_c : Bytes → Result ShellError CreateInfo → Result ShellError CreateInfo
or_sh_c cmdline (ok ci) = ok ci
or_sh_c cmdline (error x) = if is_unsupported x.code then ok (sh_c cmdline) else error x
or_sh_c cmdline stuck = stuck

-- Whether a line is refused as one that needs a shell.
abbrev pub is_refused : Result ShellError CreateInfo → Bool
is_refused (error x) = is_unsupported x.code
is_refused _ = false

or_sh_c-is_refused :
    (cmdline : Bytes) (r : Result ShellError CreateInfo) → is_refused (or_sh_c cmdline r) ≡ false
or_sh_c-is_refused cmdline (ok ci) = refl
or_sh_c-is_refused cmdline (error x) = ground arith
or_sh_c-is_refused cmdline stuck = refl

-- With the fallback flag, a line that is refused as unsupported without it becomes `/bin/sh` with
-- the arguments `sh`, `-c` and the line as it is, with the environment and the three descriptors
-- inherited; every other result is as without the flag; and no line is refused as unsupported.
pub shell_parse-or_sh_c :
    (e : Environment) (cmdline : Bytes)
    → (shell_parse e (some cmdline) true ≡ or_sh_c cmdline (shell_parse e (some cmdline) false))
      × (is_refused (shell_parse e (some cmdline) true) ≡ false)
unfolding shell_parse
shell_parse-or_sh_c e cmdline =
    let same = by_line (parse_line e cmdline) in
    (same, ap is_refused same ∙ or_sh_c-is_refused cmdline _)
  where
    by_line :
        (r : Result Failure LineState)
        → finish_parse e cmdline true r ≡ or_sh_c cmdline (finish_parse e cmdline false r)
    by_line (ok s) = unfold finish_parse finish_line in ground arith
    by_line (error x) = unfold finish_parse make_sh_c in ground arith
    by_line stuck = unfold finish_parse in refl

-- The setting of one of the child's descriptors.
abbrev pub other_info : List OtherFdInfo → ℕ → Option FdInfo
other_info [] k = none
other_info (o ∷ others) k = if o.fd == k then some o.info else other_info others k

abbrev pub fd_info : CreateInfo → ℕ → Option FdInfo
fd_info ci k = if ltb k 3 then get_elem? ci.fd_infos k else other_info ci.other_fd_infos k

-- What the redirections `m` make of descriptor `k`: the slot's setting, or inherited for 0, 1, 2.
abbrev pub settled_info : Option FdSlot → ℕ → Option FdInfo
settled_info none k = get_elem? inherited k
settled_info (some s) k = some s.info

fdmap_get-none : (m : FdMap) (k : ℕ) → AllSlots (λ t. t.fd ≢ k) m → fdmap_get m k ≡ none
unfolding fdmap_get
fdmap_get-none [] k h = refl
fdmap_get-none (s ∷ m) k h = ground (arith, fdmap_get-none m k h.1)

abbrev or_info : Option FdSlot → Option FdInfo → Option FdInfo
or_info none o = o
or_info (some s) o = some s.info

get_elem?-set :
    (l : List FdInfo) (i k : ℕ) (v : FdInfo)
    → i < length l
    → get_elem? (set l i v) k ≡ (if i == k then some v else get_elem? l k)
get_elem?-set [] i k v h = absurd (omega arith)
get_elem?-set (x ∷ l) zero zero v h = refl
get_elem?-set (x ∷ l) zero (suc k) v h = ground arith
get_elem?-set (x ∷ l) (suc i) zero v h = ground arith
get_elem?-set (x ∷ l) (suc i) (suc k) v h = ground (arith, get_elem?-set l i k v)

put_info-length : (s : FdSlot) (infos : List FdInfo) → length (put_info s infos) ≡ length infos
unfolding put_info
put_info-length s infos = ground (arith, length-set infos s.fd s.info)

put_info-get :
    (s : FdSlot) (infos : List FdInfo) (k : ℕ)
    → length infos ≡ 3
    → k < 3
    → get_elem? (put_info s infos) k ≡ (if s.fd == k then some s.info else get_elem? infos k)
unfolding put_info
put_info-get s infos k n h = ground (arith, get_elem?-set infos s.fd k s.info)

std_fd_infos-get :
    (m : FdMap) (infos : List FdInfo) (k : ℕ)
    → IsDistinct m
    → length infos ≡ 3
    → k < 3
    → get_elem? (std_fd_infos infos m) k ≡ or_info (fdmap_get m k) (get_elem? infos k)
unfolding std_fd_infos fdmap_get
std_fd_infos-get [] infos k d n h = refl
std_fd_infos-get (s ∷ m) infos k d n h = ground (
  arith,
  std_fd_infos-get m (put_info s infos) k d.1,
  put_info-length s infos,
  put_info-get s infos k,
  at_slot,
)
  where
    at_slot : s.fd ≡ k → fdmap_get m k ≡ none
    at_slot q = fdmap_get-none m k (rw q at d.0)

other_fd_infos-get :
    (m : FdMap) (k : ℕ) → 3 ≤ k → other_info (other_fd_infos m) k ≡ or_info (fdmap_get m k) none
unfolding other_fd_infos fdmap_get
other_fd_infos-get [] k h = refl
other_fd_infos-get (s ∷ m) k h = ground (arith, other_fd_infos-get m k h)

default-none : (k : ℕ) → 3 ≤ k → get_elem? default_fd_infos k ≡ none
default-none zero h = absurd (omega arith)
default-none (suc zero) h = absurd (omega arith)
default-none (suc (suc zero)) h = absurd (omega arith)
default-none (suc (suc (suc k))) h = refl

or_info-default :
    (o : Option FdSlot) (k : ℕ) → or_info o (get_elem? default_fd_infos k) ≡ settled_info o k
or_info-default none k = refl
or_info-default (some s) k = refl

not_ltb : (a b : ℕ) → ¬ (a < b) → ltb a b ≡ false
not_ltb a b h = ground arith

build_create_info-fd_info :
    (e : Environment) (s : LineState) (k : ℕ)
    → IsDistinct s.fdmap
    → fd_info (build_create_info e s) k ≡ settled_info (fdmap_get s.fdmap k) k
unfolding build_create_info
build_create_info-fd_info e s k d = elim (dec_lt k 3) [
  | yes h ↦ rw (lt→ltb k 3 h) (
      std_fd_infos-get s.fdmap default_fd_infos k d refl h
      ∙ or_info-default (fdmap_get s.fdmap k) k)
  | no h ↦ rw (not_ltb k 3 h) (
      other_fd_infos-get s.fdmap k (omega arith)
      ∙ ap (or_info (fdmap_get s.fdmap k)) (sym (default-none k (omega arith)))
      ∙ or_info-default (fdmap_get s.fdmap k) k)
]

-- A command that the parser takes itself: the arguments and assignments are those read from the
-- line, each descriptor is set as its last redirection on the line says, or inherited, and no
-- descriptor copies one that is redirected later.
pub record IsCommand (e : Environment) (cmdline : Bytes) (ci : CreateInfo) : Type 0 where
  pub line : LineState
  pub parsed : parse_line e cmdline ≡ ok line
  pub argv : (ci.argv ≡ line.args) × (ci.argv ≢ [])
  pub program : ci.program ≡ none
  pub env : ci.env ≡ build_env e line.assigns
  pub redirections : List FdSlot
  pub read : Reads e cmdline line redirections
  pub fds : (k : ℕ) → fd_info ci k ≡ settled_info (last_of k redirections) k
  pub dups : ¬ Clashes line.fdmap line.fdmap

finish_line-ok :
    (e : Environment) (cmdline : Bytes) (s : LineState) (ci : CreateInfo)
    → finish_line e cmdline s ≡ ok ci
    → (s.args ≢ []) × (build_create_info e s ≡ ci)
unfolding finish_line
finish_line-ok e cmdline s ci h = elim (Bool-cases (is_empty_list s.args)) [
  | inl none_read ↦ absurd (ground arith)
  | inr read ↦ (λ q. cc (ap is_empty_list q), ground arith)
]

finish_line-IsCommand :
    (e : Environment) (cmdline : Bytes) (s : LineState) (ci : CreateInfo)
    → parse_line e cmdline ≡ ok s
    → finish_line e cmdline s ≡ ok ci
    → IsCommand e cmdline ci
unfolding finish_line
finish_line-IsCommand e cmdline s ci parsed h =
    let (traced, settled) = parse_line-slots e cmdline s parsed in
    let (nonempty, built) = finish_line-ok e cmdline s ci h in
    record {
      line = s;
      parsed = parsed;
      argv = rw (← built) (unfold build_create_info in (refl, nonempty));
      program = rw (← built) (unfold build_create_info in refl);
      env = rw (← built) (unfold build_create_info in refl);
      redirections = traced.redirections;
      read = traced.read;
      fds = λ k.
          rw (← built) (build_create_info-fd_info e s k traced.distinct)
          ∙ ap (λ o. settled_info o k) (traced.last k);
      dups = settled;
    }

-- Where `yc_shell_parse` returns a child without the fallback, `parse_line` has read the line to
-- some words, assignments and redirections such that: there is a word, and the words are the
-- child's arguments; its environment is what `build_env` makes of the assignments; each descriptor
-- is as the last redirection of it says that the loop of `parse_line` has read, or inherited where
-- it is 0, 1 or 2 and there is none; and no slot copies a descriptor whose slot was redirected
-- strictly later.
pub shell_parse-IsCommand :
    (e : Environment) (cmdline : Bytes) {ci : CreateInfo}
    → shell_parse e (some cmdline) false ≡ ok ci
    → IsCommand e cmdline ci
unfolding shell_parse
shell_parse-IsCommand e cmdline {ci} h = by_line (parse_line e cmdline) refl h
  where
    by_line :
        (r : Result Failure LineState)
        → parse_line e cmdline ≡ r
        → finish_parse e cmdline false r ≡ ok ci
        → IsCommand e cmdline ci
    by_line (ok s) q f = finish_line-IsCommand e cmdline s ci q (unfold finish_parse in f)
    by_line (error x) q f = absurd (unfold finish_parse in ground arith)
    by_line stuck q f = absurd (unfold finish_parse in cc)
