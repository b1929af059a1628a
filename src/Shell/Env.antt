-- ===== src/Shell/Env.antt =====
-- `build_env` of src/yc-shell.c: the environment of the child.
use yapara_c.Prelude.{
  Bool, true, false, ◌&&◌, List, [], ◌∷◌, Option, none, some, ◌==◌, if◌then◌else◌,
}
use yapara_c.Shell.Types.{Bytes, Environment}

-- The first `strcspn (s, "=") + 1` bytes: the name with its `=`, or all of a text with none.
unfoldable pub name_part : Bytes → Bytes
name_part [] = []
name_part (c ∷ s) = if c == b'=' then c ∷ [] else c ∷ name_part s

-- `strncmp (s, prefix, strlen (prefix)) == 0`
unfoldable pub starts_with : Bytes → Bytes → Bool
starts_with s [] = true
starts_with [] (d ∷ prefix) = false
starts_with (c ∷ s) (d ∷ prefix) = c == d && starts_with s prefix

-- One assignment: in the place of the first variable of that name, or at the end.
unfoldable pub set_env : List Bytes → Bytes → List Bytes
unfolding name_part starts_with
set_env [] assign = assign ∷ []
set_env (v ∷ rv) assign =
    if starts_with v (name_part assign) then assign ∷ rv else v ∷ set_env rv assign

unfoldable pub set_envs : List Bytes → List Bytes → List Bytes
unfolding set_env
set_envs rv [] = rv
set_envs rv (assign ∷ assigns) = set_envs (set_env rv assign) assigns

-- `none` is the NULL that stands for "inherit".
unfoldable pub build_env : Environment → List Bytes → Option (List Bytes)
unfolding set_envs
build_env e [] = none
build_env e (assign ∷ assigns) = some (set_envs e.environ (assign ∷ assigns))
