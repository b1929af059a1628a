-- ===== src/Child/Create.antt =====
-- The creation of a child process, `yc_child_new` of src/yc-child.c.
use yapara_c.Prelude.{
  ℕ, zero, suc, ◌+◌, ◌%◌, ◌^◌, Bool, true, false, ◌||◌, List, [], ◌∷◌, ◌++◌, Option, none, some,
  ltb, leb, ◌==◌, if◌then◌else◌, length, get_or, set, replicate,
}
use yapara_c.Shell.Types.{
  FdMode, mode_null, mode_pipe, mode_inherit, mode_file, mode_dup, FdInfo, OtherFdInfo, CreateInfo,
  status_running,
}
use yapara_c.Child.Defs.{Fd, Callbacks, Child, get_fd, apply_watch, close_all_fds}
use yapara_c.Child.FdInit.{
  CreateError, bad_arguments, container_full, spawn_failed, Stdio, ignore, Os, Ledger, no_calls,
  close_fd, close_opt, InitResult, failed, ready, blank_fd, child_fd_init,
}

-- The descriptors to set up, with their numbers: the standard three, then the others.
unfoldable pub number_from : ℕ → List FdInfo → List (ℕ × FdInfo)
number_from n [] = []
number_from n (info ∷ infos) = (n, info) ∷ number_from (suc n) infos

unfoldable pub number_others : List OtherFdInfo → List (ℕ × FdInfo)
number_others [] = []
number_others (other ∷ others) = (other.fd, other.info) ∷ number_others others

unfoldable pub specs : CreateInfo → List (ℕ × FdInfo)
unfolding number_from number_others
specs info = number_from 0 info.fd_infos ++ number_others info.other_fd_infos

-- What is set up so far: the arrays `fds` (with `other_fds`), `stdio` and `dup_fds`, the calls, and
-- the error at which it stopped.
pub record Setup : Type 0 where
  pub ledger : Ledger
  pub fds : List Fd
  pub stdio : List Stdio
  pub dup_fds : List (Option ℕ)
  pub error : Option CreateError

-- The descriptors that were not reached stay marked "no pipe".
unfoldable pub blank_fds : List (ℕ × FdInfo) → List Fd
unfolding blank_fd
blank_fds [] = []
blank_fds ((n, info) ∷ rest) = blank_fd n ∷ blank_fds rest

-- The loops that call `child_fd_init`.
unfoldable pub stopped : List (ℕ × FdInfo) → List Stdio → Ledger → CreateError → Setup
unfolding blank_fds
stopped left stdio ledger error = record {
  ledger = ledger;
  fds = blank_fds left;
  stdio = stdio;
  dup_fds = replicate (length left) none;
  error = some error;
}

unfoldable pub and_rest : Fd → Option ℕ → Setup → Setup
and_rest cfd dup_fd rest = record rest { fds = cfd ∷ rest.fds; dup_fds = dup_fd ∷ rest.dup_fds }

unfoldable pub after_init :
    (rest : List Stdio → Ledger → Setup)
    → ℕ
    → List (ℕ × FdInfo)
    → List Stdio
    → Ledger × InitResult
    → Setup
unfolding stopped and_rest
after_init rest n left stdio (ledger, failed error) = stopped left stdio ledger error
after_init rest n left stdio (ledger, ready cfd entry dup_fd) =
    and_rest cfd dup_fd (rest (set stdio n entry) ledger)

unfoldable pub init_each : Os → List (ℕ × FdInfo) → List Stdio → Ledger → Setup
unfolding child_fd_init after_init
init_each os [] stdio ledger = record {
  ledger = ledger;
  fds = [];
  stdio = stdio;
  dup_fds = [];
  error = none;
}
init_each os ((n, info) ∷ left) stdio ledger =
    after_init (init_each os left) n ((n, info) ∷ left) stdio (child_fd_init os n info ledger)

-- `resolve_dup_fds`
abbrev pub is_copied : FdMode → Bool
is_copied mode_dup = true
is_copied mode_null = false
is_copied mode_pipe = false
is_copied mode_inherit = false
is_copied mode_file = false

unfoldable pub hop : ℕ → Option (ℕ × Fd) → (ℕ → Option ℕ) → Option ℕ
hop src none again = none
hop src (some (i, cfd)) again = if is_copied cfd.mode then again cfd.dup_fd else some src

unfoldable pub configured : List Fd → ℕ → ℕ → Option (ℕ × Fd)
unfolding get_fd
configured fds stdio_count src = if leb stdio_count src then none else get_fd src fds

-- The chain of copies, with the hops that are left.
unfoldable pub follow : List Fd → ℕ → ℕ → ℕ → Option ℕ
unfolding hop configured
follow fds stdio_count zero src = hop src (configured fds stdio_count src) (λ next. none)
follow fds stdio_count (suc left) src =
    hop src (configured fds stdio_count src) (follow fds stdio_count left)

unfoldable pub copy_entry : ℕ → List Stdio → Option ℕ → Option (List Stdio)
copy_entry n stdio none = none
copy_entry n stdio (some src) = some (set stdio n (get_or stdio src ignore))

unfoldable pub resolve_fd : List Fd → Fd → List Stdio → Option (List Stdio)
unfolding follow copy_entry
resolve_fd all cfd stdio =
    if is_copied cfd.mode
    then copy_entry cfd.child_fd stdio (follow all (length stdio) (length all + 1) cfd.dup_fd)
    else some stdio

unfoldable pub then_rest :
    Option (List Stdio) → (List Stdio → Option (List Stdio)) → Option (List Stdio)
then_rest none rest = none
then_rest (some stdio) rest = rest stdio

unfoldable pub resolve_each : List Fd → List Fd → List Stdio → Option (List Stdio)
unfolding resolve_fd then_rest
resolve_each all [] stdio = some stdio
resolve_each all (cfd ∷ fds) stdio = then_rest (resolve_fd all cfd stdio) (resolve_each all fds)

unfoldable pub resolve_dup_fds : List Fd → List Stdio → Option (List Stdio)
unfolding resolve_each
resolve_dup_fds fds stdio = resolve_each fds fds stdio

-- The checks of the other descriptors' numbers; `stdio_count`, where they pass.
unfoldable pub is_given : ℕ → List ℕ → Bool
is_given fd [] = false
is_given fd (x ∷ before) = (x == fd) || is_given fd before

unfoldable pub check_others : List ℕ → ℕ → List OtherFdInfo → Option ℕ
unfolding is_given
check_others before stdio_count [] = some stdio_count
check_others before stdio_count (other ∷ others) =
    let rest =
      check_others (before ++ other.fd ∷ [])
        (if ltb stdio_count (other.fd + 1) then other.fd + 1 else stdio_count) others in
    if ltb other.fd 3 || is_given other.fd before then none else rest

-- The closing of `dup_fds`.
unfoldable pub close_dups : List (Option ℕ) → Ledger → Ledger
unfolding close_opt
close_dups [] ledger = ledger
close_dups (dup_fd ∷ dup_fds) ledger = close_dups dup_fds (close_opt dup_fd ledger)

-- The child before it is spawn_ready.
unfoldable pub unborn : List Fd → Callbacks → ℕ → List ℕ → Child
unborn fds callbacks container_index os_closed = record {
  pid = 0;
  fds = fds;
  callbacks = callbacks;
  status = status_running;
  status_value = 0;
  n_uv_handles = 0;
  process_exited = false;
  done_emitted = false;
  container_index = container_index;
  process_closed = false;
  os_closed = os_closed;
  calls = [];
}

abbrev pub no_callbacks : Callbacks
no_callbacks = record { has_io = false; has_closed = false; has_done = false }

-- What follows the label `fail`.
unfoldable pub unwind : Setup → Ledger
unfolding close_dups unborn close_all_fds
unwind s =
    let freed = close_dups s.dup_fds s.ledger in
    record freed { closed = (close_all_fds (unborn s.fds no_callbacks 0 freed.closed)).os_closed }

-- The loop that polls the pipes.
unfoldable pub poll_fd : Os → Fd → ℕ → Ledger → Option ℕ → Fd × ℕ × Ledger
unfolding close_fd apply_watch
poll_fd os cfd n_uv_handles ledger none = (cfd, n_uv_handles, ledger)
poll_fd os cfd n_uv_handles ledger (some pipe_fd) =
    if os.poll_init pipe_fd
    then (apply_watch (record cfd { poll_inited = true }), (n_uv_handles + 1) % 2 ^ 64, ledger)
    else (record cfd { pipe_fd = none }, n_uv_handles, close_fd pipe_fd ledger)

unfoldable pub poll_each : Os → List Fd → ℕ → Ledger → List Fd × ℕ × Ledger
unfolding poll_fd
poll_each os [] n_uv_handles ledger = ([], n_uv_handles, ledger)
poll_each os (cfd ∷ fds) n_uv_handles ledger =
    let (polled, n, after) = poll_fd os cfd n_uv_handles ledger cfd.pipe_fd in
    let (rest, n_all, last) = poll_each os fds n after in (polled ∷ rest, n_all, last)

-- What `yc_child_new` returns: NULL with an error, or the child.
pub data Created : Type 0 where
  refused : CreateError → Created
  created : Child → Created

unfoldable pub spawn_ready : Os → Callbacks → ℕ → Setup → Option ℕ → Ledger × Created
unfolding unwind close_dups poll_each unborn
spawn_ready os callbacks n_children s none = (unwind s, refused spawn_failed)
spawn_ready os callbacks n_children s (some pid) =
    let (fds, n_uv_handles, ledger) = poll_each os s.fds 1 (close_dups s.dup_fds s.ledger) in
    (
      ledger,
      created
          (record (unborn fds callbacks n_children []) { pid = pid; n_uv_handles = n_uv_handles }),
    )

unfoldable pub resolved :
    Os → Callbacks → ℕ → CreateInfo → Setup → Option (List Stdio) → Ledger × Created
unfolding unwind spawn_ready
resolved os callbacks n_children info s none = (unwind s, refused bad_arguments)
resolved os callbacks n_children info s (some stdio) =
    spawn_ready os callbacks n_children s (os.spawn info stdio)

unfoldable pub set_up :
    Os → Callbacks → ℕ → CreateInfo → Setup → Option CreateError → Ledger × Created
unfolding unwind resolved resolve_dup_fds
set_up os callbacks n_children info s (some error) = (unwind s, refused error)
set_up os callbacks n_children info s none =
    resolved os callbacks n_children info s (resolve_dup_fds s.fds s.stdio)

unfoldable pub checked : Os → Callbacks → ℕ → CreateInfo → Option ℕ → Ledger × Created
unfolding set_up init_each specs
checked os callbacks n_children info none = (no_calls, refused bad_arguments)
checked os callbacks n_children info (some stdio_count) =
    let s = init_each os (specs info) (replicate stdio_count ignore) no_calls in
    set_up os callbacks n_children info s s.error

-- `yc_child_new`
unfoldable pub child_new :
    Os → Callbacks → (n_children max_children : ℕ) → CreateInfo → Ledger × Created
unfolding checked check_others
child_new os callbacks n_children max_children info =
    if length info.argv == 0
    then (no_calls, refused bad_arguments)
    else (if leb max_children n_children
        then (no_calls, refused container_full)
        else checked os callbacks n_children info (check_others [] 3 info.other_fd_infos))
