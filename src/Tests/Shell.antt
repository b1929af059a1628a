-- ===== src/Tests/Shell.antt =====
-- The theorems on src/yc-shell.c at concrete lines.
use yapara_c.Prelude.{true, false, [], ◌∷◌, none, some, ◌≡◌, ◌≢◌, ◌↔◌, arith}
use yapara_c.Prelude.Loop.{ok, stuck}
use yapara_c.Shell.FdMap.{FdMap, check_dup_order}
use yapara_c.Shell.FdMap.Laws.{Clashes, check_dup_order_iff}
use yapara_c.Shell.Redirect.{dup_info, file_info}
use yapara_c.Shell.Line.{codes, shell_parse, default_fd_infos}
use yapara_c.Shell.Quoting.{quoted, quoted_tail, shell_parse-quoted}
use yapara_c.Shell.Progress.Token.{shell_parse-ne-stuck}
use yapara_c.Shell.Outcome.{
  IsCommand, or_sh_c, is_refused, shell_parse-or_sh_c, shell_parse-IsCommand,
}
use yapara_c.Tests.ShellRuns.{home_env, merge_line, merge_info, merge_runs}

-- `printf 'it'\''s $HOME'`
shell_parse-quoted_example :
    shell_parse home_env
      (some (quoted (codes "printf") (quoted_tail (codes "it's $HOME" ∷ []))))
      true
    ≡ ok (record {
      env = none;
      argv = codes "printf" ∷ codes "it's $HOME" ∷ [];
      program = none;
      fd_infos = default_fd_infos;
      other_fd_infos = [];
    })
shell_parse-quoted_example =
    shell_parse-quoted home_env (codes "printf") (codes "it's $HOME" ∷ []) true

shell_parse-ne-stuck_example :
    shell_parse home_env (some (codes "a 'b \"c\" $HOME >x 2>&1")) true ≢ stuck
shell_parse-ne-stuck_example =
    shell_parse-ne-stuck home_env (some (codes "a 'b \"c\" $HOME >x 2>&1")) true

shell_parse-or_sh_c_example :
    (shell_parse home_env (some (codes "ls *.png")) true
      ≡ or_sh_c (codes "ls *.png") (shell_parse home_env (some (codes "ls *.png")) false))
    × (is_refused (shell_parse home_env (some (codes "ls *.png")) true) ≡ false)
shell_parse-or_sh_c_example = shell_parse-or_sh_c home_env (codes "ls *.png")

shell_parse-IsCommand_example : IsCommand home_env merge_line merge_info
shell_parse-IsCommand_example =
    shell_parse-IsCommand home_env merge_line {ci = merge_info} merge_runs

-- `2>&1 >log`
abbrev crossed : FdMap
crossed =
    record { fd = 2; info = dup_info false 1; order = 1 }
    ∷ record { fd = 1; info = file_info false false (codes "log"); order = 2 }
    ∷ []

check_dup_order_iff_example : (check_dup_order crossed ≡ false) ↔ Clashes crossed crossed
check_dup_order_iff_example = check_dup_order_iff crossed ((λ q. omega (arith, q), tt), (tt, tt))
