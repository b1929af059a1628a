-- ===== src/Shell/Types.antt =====
-- The types of yc-shell.h and yc-child.h that the parser fills in, and its errors.
use yapara_c.Prelude.{ℕ, Bool, List, Option}

abbrev pub Bytes : Type 0
Bytes = List ℕ

-- `YcShellErrorCode`, without YC_SHELL_ERROR_NONE, which stands for "no error".
pub data ErrorCode : Type 0 where
  empty no_command syntax unsupported : ErrorCode

-- An error inside the parse: its code, and `st->p` when it is set.
pub record Failure : Type 0 where
  pub code : ErrorCode
  pub at : Bytes

-- `YcShellError`, without its message.
pub record ShellError : Type 0 where
  pub code : ErrorCode
  pub position : ℕ

-- `YcChildFdMode`
pub data FdMode : Type 0 where
  mode_null mode_pipe mode_inherit mode_file mode_dup : FdMode

-- `YcChildStatus`
pub data ChildStatus : Type 0 where
  status_running status_exited status_killed : ChildStatus

-- `YcChildCreateFdInfo`
pub record FdInfo : Type 0 where
  pub is_in : Bool
  pub is_out : Bool
  pub mode : FdMode
  pub filename : Option Bytes
  pub append : Bool
  pub dup_fd : ℕ

-- `YcChildCreateOtherFdInfo`
pub record OtherFdInfo : Type 0 where
  pub info : FdInfo
  pub fd : ℕ

-- `YcChildCreateInfo`, without the callbacks and user data, which the caller fills in.
pub record CreateInfo : Type 0 where
  pub env : Option (List Bytes)
  pub argv : List Bytes
  pub program : Option Bytes
  pub fd_infos : List FdInfo
  pub other_fd_infos : List OtherFdInfo

-- The process's environment: the `environ` vector of "NAME=value" strings, and the C library's
-- `getenv`.
pub record Environment : Type 0 where
  pub getenv : Bytes → Option Bytes
  pub environ : List Bytes
