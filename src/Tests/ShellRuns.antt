-- ===== src/Tests/ShellRuns.antt =====
-- Runs of the shell parser on the lines of src/test-shell.c.
use yapara_c.Prelude.{Bool, true, false, [], ◌∷◌, Option, none, some, ◌≡◌, refl}
use yapara_c.Prelude.Loop.{Result, ok, error, run}
use yapara_c.Shell.Types.{Bytes, syntax, Environment, ShellError, CreateInfo}
use yapara_c.Shell.Line.{inherit_info, codes, shell_parse, default_fd_infos}
use yapara_c.Shell.Env.{build_env, set_envs, set_env, name_part, starts_with}
use yapara_c.Shell.Line.{
  parse_line, finish_line, finish_parse, make_sh_c, build_create_info, check_line, line_step,
  token_step, put_info, std_fd_infos, other_fd_infos,
}
use yapara_c.Shell.FdMap.{check_dup_order, dup_order_from, is_later, fdmap_get, fdmap_set}
use yapara_c.Shell.Chars.{skip_ifs, is_redirect_start, assignment_name_length}
use yapara_c.Shell.Redirect.{
  dup_info, file_info, parse_redirect, parse_assignment, redirect_numbered, redirect_op,
  redirect_target, redirect_file, redirect_dup, read_fd, dup_numbered, ends_dup,
}
use yapara_c.Shell.Words.{
  parse_word, word_loop, word_step, finish_word, single_quoted, double_quoted, double_quoted_step,
  escape_step, expand_dollar, expand_name, substitute, split_byte, split_fields, is_special,
  is_shell_only,
}

-- An environment with one variable, and the `getenv` of it.
abbrev pub home_env : Environment
home_env = record {
  getenv = λ name. elim name [ [] ↦ none | _ ↦ some (codes "a b") ];
  environ = codes "HOME=a b" ∷ [];
}

-- The parser, open for evaluation.
parse : Environment → Option Bytes → Bool → Result ShellError CreateInfo
unfolding shell_parse finish_parse parse_line finish_line make_sh_c build_create_info check_line
    line_step token_step build_env put_info std_fd_infos other_fd_infos check_dup_order
    dup_order_from is_later fdmap_get redirect_numbered dup_numbered split_byte skip_ifs
    is_redirect_start run assignment_name_length parse_redirect parse_assignment parse_word
    word_loop word_step finish_word single_quoted double_quoted double_quoted_step escape_step
    expand_dollar expand_name substitute split_fields is_special is_shell_only redirect_op
    redirect_target redirect_file redirect_dup read_fd ends_dup fdmap_set
parse = shell_parse

plain_words :
    parse home_env (some (codes "echo 'a b' \"x$HOME\" $HOME c\\ d # no")) false
    ≡ ok (record {
      env = none;
      argv = codes "echo" ∷ codes "a b" ∷ codes "xa b" ∷ codes "a" ∷ codes "b" ∷ codes "c d" ∷ [];
      program = none;
      fd_infos = default_fd_infos;
      other_fd_infos = [];
    })
unfolding parse
plain_words = refl

-- An assignment, a file, and a second name for it.
abbrev pub merge_line : Bytes
merge_line = codes "A=1 run x >log 2>&1 3<in"

abbrev pub merge_info : CreateInfo
merge_info = record {
  env = some (codes "HOME=a b" ∷ codes "A=1" ∷ []);
  argv = codes "run" ∷ codes "x" ∷ [];
  program = none;
  fd_infos = inherit_info true ∷ file_info false false (codes "log") ∷ dup_info false 1 ∷ [];
  other_fd_infos = record { info = file_info true false (codes "in"); fd = 3 } ∷ [];
}

pub merge_runs : shell_parse home_env (some merge_line) false ≡ ok merge_info
unfolding parse split_byte set_envs set_env name_part starts_with
merge_runs = refl

-- `2>&1 >log` needs a shell: fd 2 would copy a descriptor that is redirected later.
dup_before_file :
    shell_parse home_env (some (codes "run 2>&1 >log")) true
    ≡ ok (make_sh_c (codes "run 2>&1 >log"))
unfolding parse split_byte
dup_before_file = refl

open_quote :
    shell_parse home_env (some (codes "echo 'ab")) true
    ≡ error (record { code = syntax; position = 8 })
unfolding parse split_byte
open_quote = refl
