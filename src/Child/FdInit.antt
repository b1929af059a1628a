-- ===== src/Child/FdInit.antt =====
-- One descriptor of a child to create, `child_fd_init` of src/yc-child.c.
use yapara_c.Prelude.{
  ℕ, ◌+◌, Bool, true, false, not, ◌&&◌, ◌||◌, List, [], ◌∷◌, ◌++◌, Option, none, some, ◌==◌,
  if◌then◌else◌,
}
use yapara_c.Shell.Types.{
  Bytes, FdMode, mode_null, mode_pipe, mode_inherit, mode_file, mode_dup, FdInfo, CreateInfo,
}
use yapara_c.Child.Defs.{no_events, Fd}

-- `YcChildCreateErrorCode`, without YC_CHILD_CREATE_ERROR_NONE.
pub data CreateError : Type 0 where
  bad_arguments container_full pipe_failed open_failed spawn_failed : CreateError

-- The access mode of open(), and whether O_CREAT, O_TRUNC and O_APPEND are with it.
pub data Access : Type 0 where
  rdonly wronly rdwr : Access

pub record OpenFlags : Type 0 where
  pub access : Access
  pub creat : Bool
  pub trunc : Bool
  pub append : Bool

-- `open_flags_for_direction`
unfoldable pub open_flags_for_direction : (is_in is_out creating append : Bool) → OpenFlags
open_flags_for_direction is_in is_out creating append =
    if is_in && is_out
    then record { access = rdwr; creat = creating; trunc = false; append = false }
    else (if is_in
        then record { access = rdonly; creat = false; trunc = false; append = false }
        else (if append
            then record { access = wronly; creat = creating; trunc = false; append = true }
            else record { access = wronly; creat = creating; trunc = creating; append = false }))

-- `uv_stdio_container_t`: UV_IGNORE, or UV_INHERIT_FD of a descriptor.
pub data Stdio : Type 0 where
  ignore : Stdio
  inherit_fd : (fd : ℕ) → Stdio

-- What the system and libuv answer. The first argument of `open_path` (open()), `pipe` and `socketpair` is how
-- many of these calls came before, so answers may differ from call to call.
pub record Os : Type 0 where
  pub open_path : ℕ → Bytes → OpenFlags → Option ℕ
  pub pipe : ℕ → Option (ℕ × ℕ)
  pub socketpair : ℕ → Option (ℕ × ℕ)
  pub set_nonblock : ℕ → Bool
  pub set_cloexec : ℕ → Bool
  pub spawn : CreateInfo → List Stdio → Option ℕ
  pub poll_init : ℕ → Bool

-- The calls so far: their number, the descriptors that were opened, and those closed.
pub record Ledger : Type 0 where
  pub n_calls : ℕ
  pub opened : List ℕ
  pub closed : List ℕ

abbrev pub no_calls : Ledger
no_calls = record { n_calls = 0; opened = []; closed = [] }

unfoldable pub close_fd : ℕ → Ledger → Ledger
close_fd fd ledger = record ledger { closed = ledger.closed ++ fd ∷ [] }

unfoldable pub close_opt : Option ℕ → Ledger → Ledger
unfolding close_fd
close_opt none ledger = ledger
close_opt (some fd) ledger = close_fd fd ledger

-- `set_nonblock_cloexec`
unfoldable pub set_nonblock_cloexec : Os → ℕ → Bool
set_nonblock_cloexec os fd = os.set_nonblock fd && os.set_cloexec fd

-- `open_pipe_pair`: our end and the child's.
unfoldable pub finish_pair : Os → (ours theirs : ℕ) → Ledger → Ledger × Option (ℕ × ℕ)
unfolding set_nonblock_cloexec close_fd
finish_pair os ours theirs ledger =
    if set_nonblock_cloexec os ours
    then (ledger, some (ours, theirs))
    else (close_fd theirs (close_fd ours ledger), none)

unfoldable pub use_pair :
    Os → (child_reads child_writes : Bool) → Ledger → Option (ℕ × ℕ) → Ledger × Option (ℕ × ℕ)
unfolding finish_pair
use_pair os child_reads child_writes ledger none =
    (record ledger { n_calls = ledger.n_calls + 1 }, none)
use_pair os child_reads child_writes ledger (some (fd0, fd1)) =
    let after : Ledger = record ledger {
      n_calls = ledger.n_calls + 1;
      opened = ledger.opened ++ fd0 ∷ fd1 ∷ [];
    } in
    if child_reads && not child_writes
    then finish_pair os fd1 fd0 after
    else finish_pair os fd0 fd1 after

unfoldable pub open_pipe_pair :
    Os → (child_reads child_writes : Bool) → Ledger → Ledger × Option (ℕ × ℕ)
unfolding use_pair
open_pipe_pair os child_reads child_writes ledger =
    use_pair os child_reads child_writes ledger
      (if child_reads && child_writes then os.socketpair ledger.n_calls else os.pipe ledger.n_calls)

-- What `child_fd_init` comes to: the descriptor, its entry of `stdio`, and `*dup_fd_out`.
pub data InitResult : Type 0 where
  failed : CreateError → InitResult
  ready : (cfd : Fd) (stdio : Stdio) (dup_fd : Option ℕ) → InitResult

-- A descriptor marked "no pipe".
unfoldable pub blank_fd : ℕ → Fd
blank_fd child_fd = record {
  child_fd = child_fd;
  pipe_fd = none;
  mode = mode_null;
  dup_fd = 0;
  is_in = false;
  is_out = false;
  revents = no_events;
  watch = no_events;
  poll_inited = false;
  poll_started = false;
  closing_fd = none;
}

-- "/dev/null"
abbrev pub dev_null : Bytes
dev_null = b'/' ∷ b'd' ∷ b'e' ∷ b'v' ∷ b'/' ∷ b'n' ∷ b'u' ∷ b'l' ∷ b'l' ∷ []

-- `child_fd_init`: the direction of a descriptor, ...
unfoldable pub direction : ℕ → FdInfo → Option (Bool × Bool)
direction child_fd info =
    if info.is_in || info.is_out
    then some (info.is_in, info.is_out)
    else (if child_fd == 0
        then some (true, false)
        else (if child_fd == 1 || child_fd == 2 then some (false, true) else none))

-- ... what is opened for it, ...
unfoldable pub opened_fd : Fd → Ledger → Option ℕ → Ledger × InitResult
opened_fd cfd ledger none = (record ledger { n_calls = ledger.n_calls + 1 }, failed open_failed)
opened_fd cfd ledger (some fd) =
    let after : Ledger = record ledger {
      n_calls = ledger.n_calls + 1;
      opened = ledger.opened ++ fd ∷ [];
    } in
    (after, ready cfd (inherit_fd fd) (some fd))

unfoldable pub open_file : Os → FdInfo → Fd → Ledger → Option Bytes → Ledger × InitResult
unfolding opened_fd open_flags_for_direction
open_file os info cfd ledger none = (ledger, failed bad_arguments)
open_file os info cfd ledger (some filename) = opened_fd cfd ledger (
    os.open_path ledger.n_calls filename
      (open_flags_for_direction cfd.is_in cfd.is_out true info.append))

unfoldable pub piped_fd : Fd → Ledger × Option (ℕ × ℕ) → Ledger × InitResult
piped_fd cfd (ledger, none) = (ledger, failed pipe_failed)
piped_fd cfd (ledger, some (ours, theirs)) =
    let piped : Fd = record cfd {
      pipe_fd = some ours;
      watch = record { readable = cfd.is_out; writable = cfd.is_in; hangup = false };
    } in
    (ledger, ready piped (inherit_fd theirs) (some theirs))

-- ... by its mode, ...
unfoldable pub init_mode : Os → FdInfo → Fd → Ledger → FdMode → Ledger × InitResult
unfolding opened_fd open_flags_for_direction open_file piped_fd open_pipe_pair
init_mode os info cfd ledger mode_dup = (ledger, ready cfd ignore none)
init_mode os info cfd ledger mode_inherit = (ledger, ready cfd (inherit_fd cfd.child_fd) none)
init_mode os info cfd ledger mode_null = opened_fd cfd ledger (
    os.open_path ledger.n_calls dev_null
      (open_flags_for_direction cfd.is_in cfd.is_out false false))
init_mode os info cfd ledger mode_file = open_file os info cfd ledger info.filename
init_mode os info cfd ledger mode_pipe =
    piped_fd cfd (open_pipe_pair os cfd.is_in cfd.is_out ledger)

-- ... and the whole.
unfoldable pub init_directed : Os → ℕ → FdInfo → Ledger → Option (Bool × Bool) → Ledger × InitResult
unfolding init_mode blank_fd
init_directed os child_fd info ledger none = (ledger, failed bad_arguments)
init_directed os child_fd info ledger (some (is_in, is_out)) =
    let cfd : Fd = record (blank_fd child_fd) {
      mode = info.mode;
      dup_fd = info.dup_fd;
      is_in = is_in;
      is_out = is_out;
    } in
    init_mode os info cfd ledger info.mode

unfoldable pub child_fd_init : Os → ℕ → FdInfo → Ledger → Ledger × InitResult
unfolding init_directed direction
child_fd_init os child_fd info ledger =
    init_directed os child_fd info ledger (direction child_fd info)
