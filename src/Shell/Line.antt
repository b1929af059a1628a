-- ===== src/Shell/Line.antt =====
-- `parse_line` and `yc_shell_parse` of src/yc-shell.c.
use Prim.Native.Char.{code}
use Prim.Native.String.{String}
use yapara_c.Prelude.{
  ℕ, ◌+◌, ◌-◌, ◌%◌, ◌^◌, Bool, true, false, ◌&&◌, ◌||◌, not, List, [], ◌∷◌, Option, none, some, ltb,
  ◌==◌, if◌then◌else◌, length, set,
}
use yapara_c.Prelude.Loop.{Flow, again, stop, throw, hang, Result, ok, error, stuck, ◌>>=◌, run}
use yapara_c.Shell.Types.{
  Bytes, ErrorCode, empty, no_command, unsupported, Failure, ShellError, mode_inherit, FdInfo,
  OtherFdInfo, CreateInfo, Environment,
}
use yapara_c.Shell.Chars.{peek, is_redirect_start, skip_ifs, assignment_name_length}
use yapara_c.Shell.FdMap.{FdSlot, FdMap, check_dup_order}
use yapara_c.Shell.Words.{fail, parse_word}
use yapara_c.Shell.Redirect.{parse_redirect, parse_assignment}
use yapara_c.Shell.Env.{build_env}

-- The variables of `parse_line`.
pub record LineState : Type 0 where
  pub p : Bytes
  pub args : List Bytes
  pub assigns : List Bytes
  pub fdmap : FdMap
  pub order : ℕ

abbrev pub bump : ℕ → ℕ
bump order = (order + 1) % 2 ^ 32

abbrev pub is_empty_list : List Bytes → Bool
is_empty_list [] = true
is_empty_list _ = false

-- What each of the three parses does to the variables.
abbrev pub with_redirect : LineState → Result Failure (Bytes × FdMap) → Flow Failure LineState
with_redirect s (ok (p, m)) = again (record s { p = p; fdmap = m; order = bump s.order })
with_redirect s (error x) = throw x
with_redirect s stuck = hang

abbrev pub with_assign : LineState → Result Failure (Bytes × List Bytes) → Flow Failure LineState
with_assign s (ok (p, assigns)) = again (record s { p = p; assigns = assigns })
with_assign s (error x) = throw x
with_assign s stuck = hang

abbrev pub with_word : LineState → Result Failure (Bytes × List Bytes) → Flow Failure LineState
with_word s (ok (p, args)) = again (record s { p = p; args = args })
with_word s (error x) = throw x
with_word s stuck = hang

module _ (e : Environment) where
  -- One round of the loop, at the first byte that is no blank.
  unfoldable pub token_step : LineState → Flow Failure LineState
  token_step s =
      if peek s.p == 0 || peek s.p == b'#'
      then stop s
      else if is_redirect_start s.p
      then with_redirect s (parse_redirect e s.fdmap (bump s.order) s.p)
      else if is_empty_list s.args && ltb 0 (assignment_name_length s.p)
      then with_assign s (parse_assignment e s.p s.assigns)
      else with_word s (parse_word e true s.p s.args)

  unfoldable pub line_step : LineState → Flow Failure LineState
  line_step s = token_step (record s { p = skip_ifs s.p })

  -- `check_dup_order` reports at `st->p`, the end of what was read.
  unfoldable pub check_line : LineState → Result Failure LineState
  check_line s = if check_dup_order s.fdmap then ok s else fail unsupported s.p

  unfoldable pub parse_line : Bytes → Result Failure LineState
  parse_line cmdline = do
    s ←
        run (λ s. length s.p) line_step
          (record { p = cmdline; args = []; assigns = []; fdmap = []; order = 0 })
    check_line s

abbrev pub inherit_info : Bool → FdInfo
inherit_info input = record {
  is_in = input;
  is_out = not input;
  mode = mode_inherit;
  filename = none;
  append = false;
  dup_fd = 0;
}

-- `set_default_fd_infos`
abbrev pub default_fd_infos : List FdInfo
default_fd_infos = inherit_info true ∷ inherit_info false ∷ inherit_info false ∷ []

-- The slots below 3 go to `fd_infos`, the others to `other_fd_infos`, in order.
unfoldable pub put_info : FdSlot → List FdInfo → List FdInfo
put_info s infos = if ltb s.fd 3 then set infos s.fd s.info else infos

unfoldable pub std_fd_infos : List FdInfo → FdMap → List FdInfo
std_fd_infos infos [] = infos
std_fd_infos infos (s ∷ m) = std_fd_infos (put_info s infos) m

unfoldable pub other_fd_infos : FdMap → List OtherFdInfo
other_fd_infos [] = []
other_fd_infos (s ∷ m) =
    if ltb s.fd 3 then other_fd_infos m else record { info = s.info; fd = s.fd } ∷ other_fd_infos m

unfoldable pub build_create_info : Environment → LineState → CreateInfo
build_create_info e s = record {
  env = build_env e s.assigns;
  argv = s.args;
  program = none;
  fd_infos = std_fd_infos default_fd_infos s.fdmap;
  other_fd_infos = other_fd_infos s.fdmap;
}

-- The bytes of a literal, which is ASCII.
abbrev pub codes : String → Bytes
codes String.[] = []
codes (String.◌∷◌ c s) = code c ∷ codes s

unfoldable pub make_sh_c : Bytes → CreateInfo
make_sh_c cmdline = record {
  env = none;
  argv = codes "sh" ∷ codes "-c" ∷ cmdline ∷ [];
  program = some (codes "/bin/sh");
  fd_infos = default_fd_infos;
  other_fd_infos = [];
}

abbrev pub is_unsupported : ErrorCode → Bool
is_unsupported unsupported = true
is_unsupported _ = false

abbrev pub is_empty_map : FdMap → Bool
is_empty_map [] = true
is_empty_map _ = false

-- `st->p - st->start`
abbrev pub position : Bytes → Bytes → ℕ
position cmdline at = length cmdline - length at

abbrev pub shell_error : Bytes → Failure → ShellError
shell_error cmdline x = record { code = x.code; position = position cmdline x.at }

-- What `yc_shell_parse` makes of the parsed line.
unfoldable pub finish_line : Environment → Bytes → LineState → Result ShellError CreateInfo
finish_line e cmdline s =
    if is_empty_list s.args
    then error (record {
      code =
          if not (is_empty_list s.assigns) || not (is_empty_map s.fdmap) then no_command else empty;
      position = 0;
    })
    else ok (build_create_info e s)

-- The rest of `yc_shell_parse`, by what `parse_line` returned.
unfoldable pub finish_parse :
    Environment → Bytes → Bool → Result Failure LineState → Result ShellError CreateInfo
finish_parse e cmdline fallback (ok s) = finish_line e cmdline s
finish_parse e cmdline fallback (error x) =
    if is_unsupported x.code && fallback
    then ok (make_sh_c cmdline)
    else error (shell_error cmdline x)
finish_parse e cmdline fallback stuck = stuck

-- `yc_shell_parse`; the flag is YC_SHELL_FLAGS_FALLBACK_TO_SH_C, and `none` is a NULL line.
unfoldable pub shell_parse : Environment → Option Bytes → Bool → Result ShellError CreateInfo
shell_parse e none fallback = error (record { code = empty; position = 0 })
shell_parse e (some cmdline) fallback = finish_parse e cmdline fallback (parse_line e cmdline)
