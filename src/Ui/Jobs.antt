-- ===== src/Ui/Jobs.antt =====
-- The job table of src/yc-ui.c: how a job is started, ends, is retained, and goes away.
pub mod Ended
pub mod Retained
pub mod Members
pub mod Events
pub mod Lifecycle
pub mod Dangling
pub mod Redirects
use yapara_c.Prelude.{
  ℕ, zero, suc, ◌+◌, ◌-◌, ◌%◌, ◌^◌, Bool, true, false, ◌&&◌, ◌||◌, not, List, [], ◌∷◌, ◌++◌, map,
  Option, none, some, ltb, leb, ◌==◌, if◌then◌else◌, length, get_or, set,
}
use yapara_c.Shell.Types.{
  ChildStatus, status_running, status_exited, status_killed, FdMode, mode_null, mode_pipe,
  mode_inherit, mode_file, mode_dup, FdInfo, CreateInfo,
}
use yapara_c.Ui.Options.{Bytes}
use yapara_c.Ui.Lines.{LineState, deliver_lines, flush_pending_lines}

-- `YcUIJob`, without the times. The index stands for the address too: no two jobs of a user
-- interface have the same one.
pub record Job : Type 0 where
  pub index : ℕ
  pub cmdline : Bytes
  pub pid : ℕ
  pub is_running : Bool
  pub status : ChildStatus
  pub status_value : ℕ
  pub lines : LineState

-- `YcUI`: the job table and the counts. `destroyed` lists the jobs that `job_destroy` has freed, in
-- the order of its calls.
pub record Ui : Type 0 where
  pub jobs : List Job
  pub ended_jobs : List Job
  pub max_ended_jobs : ℕ
  pub n_started : ℕ
  pub n_ended : ℕ
  pub n_failed : ℕ
  pub destroyed : List ℕ

-- `yc_ui_new`, and the limit that the back end's `init` sets.
unfoldable pub new : (max_ended_jobs : ℕ) → Ui
new max_ended_jobs = record {
  jobs = [];
  ended_jobs = [];
  max_ended_jobs = max_ended_jobs;
  n_started = 0;
  n_ended = 0;
  n_failed = 0;
  destroyed = [];
}

abbrev pub is_inherit : FdMode → Bool
is_inherit mode_inherit = true
is_inherit _ = false

abbrev pub no_fd : FdInfo
no_fd = record {
  is_in = false;
  is_out = false;
  mode = mode_inherit;
  filename = none;
  append = false;
  dup_fd = 0;
}

-- The body of the loop of `yc_ui_spawn` over the captured descriptors.
unfoldable pub capture_fd : ℕ → List FdInfo → List FdInfo
capture_fd fd fd_infos =
    let info = get_or fd_infos fd no_fd in
    if is_inherit info.mode
    then set fd_infos fd (record info { mode = mode_pipe; is_in = false; is_out = true })
    else fd_infos

unfoldable pub null_stdin : List FdInfo → List FdInfo
null_stdin fd_infos =
    let info = get_or fd_infos 0 no_fd in
    if is_inherit info.mode then set fd_infos 0 (record info { mode = mode_null }) else fd_infos

-- What `yc_ui_spawn` makes of the request before it calls `yc_child_new`.
unfoldable pub redirect_job : (captures_output : Bool) → CreateInfo → CreateInfo
redirect_job captures_output info =
    let captured = capture_fd 2 (capture_fd 1 info.fd_infos) in
    record info { fd_infos = null_stdin (if captures_output then captured else info.fd_infos) }

abbrev pub blank_lines : LineState
blank_lines = record { out_pending = []; err_pending = []; events = [] }

-- The job is there when `yc_child_new` returns a child.
unfoldable pub add_job : Bytes → (pid : ℕ) → Ui → Ui
add_job cmdline pid ui = record ui {
  jobs =
      ui.jobs
      ++ record {
        index = ui.n_started;
        cmdline = cmdline;
        pid = pid;
        is_running = true;
        status = status_running;
        status_value = 0;
        lines = blank_lines;
      }
        ∷ [];
  n_started = (ui.n_started + 1) % 2 ^ 64;
}

-- `yc_ui_spawn`; `child_new` stands for the child's start, with its process id where it succeeds.
unfoldable pub spawn :
    (child_new : CreateInfo → Option ℕ) (captures_output : Bool) → CreateInfo → Bytes → Ui → Ui
spawn child_new captures_output info cmdline ui =
    elim (child_new (redirect_job captures_output info)) [
      | none ↦ ui
      | some pid ↦ add_job cmdline pid ui
    ]

-- `jobs_remove` and `ended_jobs_remove`: the first job with this index leaves the array.
unfoldable pub remove_job : ℕ → List Job → List Job
remove_job index [] = []
remove_job index (job ∷ jobs) =
    let rest = remove_job index jobs in if job.index == index then jobs else job ∷ rest

-- Whether `ended_jobs_remove` finds the job.
unfoldable pub has_job : ℕ → List Job → Bool
has_job index [] = false
has_job index (job ∷ jobs) = (job.index == index) || has_job index jobs

-- One round of `ended_jobs_trim` with this limit, on the retained jobs and the calls of
-- `job_destroy` so far.
unfoldable pub trim_round : ℕ → List Job × List ℕ → List Job × List ℕ
trim_round max ([], destroyed) = ([], destroyed)
trim_round max (oldest ∷ jobs, destroyed) =
    if ltb max (length (oldest ∷ jobs))
    then (remove_job oldest.index (oldest ∷ jobs), destroyed ++ oldest.index ∷ [])
    else (oldest ∷ jobs, destroyed)

unfoldable pub trim_rounds : (rounds : ℕ) → ℕ → List Job × List ℕ → List Job × List ℕ
trim_rounds zero max s = s
trim_rounds (suc rounds) max s = trim_rounds rounds max (trim_round max s)

-- `ended_jobs_trim`: each round that does anything removes a job, so there are no more rounds than
-- jobs.
unfoldable pub ended_jobs_trim : Ui → Ui
ended_jobs_trim ui =
    let (kept, destroyed) =
      trim_rounds (length ui.ended_jobs) ui.max_ended_jobs (ui.ended_jobs, ui.destroyed) in
    record ui { ended_jobs = kept; destroyed = destroyed }

-- `yc_ui_reap_job`; nothing where the process dies of the call.
unfoldable pub reap_job : Job → Ui → Option Ui
reap_job job ui =
    if has_job job.index ui.ended_jobs
    then some (record ui {
      ended_jobs = remove_job job.index ui.ended_jobs;
      destroyed = ui.destroyed ++ job.index ∷ [];
    })
    else none

-- `deliver_lines` of `ui_child_io`, for the job that `index` points to.
unfoldable pub read_lines : ℕ → (child_fd : ℕ) → Bytes → List Job → List Job
read_lines index child_fd text [] = []
read_lines index child_fd text (job ∷ jobs) =
    (if job.index == index
      then record job { lines = deliver_lines child_fd text job.lines }
      else job)
    ∷ read_lines index child_fd text jobs

-- `ui_child_io` where `read` returned this text.
unfoldable pub child_io : (wants_lines : Bool) → Job → (child_fd : ℕ) → Bytes → Ui → Ui
child_io wants_lines job child_fd text ui =
    if wants_lines then record ui { jobs = read_lines job.index child_fd text ui.jobs } else ui

abbrev pub is_success : ChildStatus → ℕ → Bool
is_success status_exited value = value == 0
is_success _ value = false

-- The job as `ui_child_done` leaves it.
unfoldable pub end_job : (wants_lines : Bool) → ChildStatus → ℕ → Job → Job
end_job wants_lines status value job = record job {
  is_running = false;
  status = status;
  status_value = value;
  lines = flush_pending_lines wants_lines job.lines;
}

-- The counts of `ui_child_done`, and its call of `jobs_remove`.
unfoldable pub count_ended : ChildStatus → ℕ → Job → Ui → Ui
count_ended status value job ui = record ui {
  n_ended = (ui.n_ended + 1) % 2 ^ 64;
  n_failed = if is_success status value then ui.n_failed else (ui.n_failed + 1) % 2 ^ 64;
  jobs = remove_job job.index ui.jobs;
}

-- `ui_child_done` up to the callbacks.
unfoldable pub retire_job : (wants_lines : Bool) → ChildStatus → ℕ → Job → Ui → Ui
retire_job wants_lines status value job ui =
    let counted = count_ended status value job ui in
    let retained : Ui = record counted {
      ended_jobs = counted.ended_jobs ++ end_job wants_lines status value job ∷ [];
    } in
    if ltb 0 ui.max_ended_jobs then ended_jobs_trim retained else counted

-- `ui_child_done` from the callbacks on: `job_ended` is what the back end's makes of
-- `max_ended_jobs`.
unfoldable pub release_job : (job_ended : ℕ → ℕ) → Job → Ui → Ui
release_job job_ended job ui =
    let called : Ui = record ui { max_ended_jobs = job_ended ui.max_ended_jobs } in
    if called.max_ended_jobs == 0
    then record called { destroyed = called.destroyed ++ job.index ∷ [] }
    else called

-- `ui_child_done`
unfoldable pub child_done :
    (wants_lines : Bool) (job_ended : ℕ → ℕ) → ChildStatus → ℕ → Job → Ui → Ui
child_done wants_lines job_ended status value job ui =
    release_job job_ended job (retire_job wants_lines status value job ui)

-- What `yc_ui_free` does to the job table.
unfoldable pub free : Ui → Ui
free ui = ended_jobs_trim (record ui { max_ended_jobs = 0 })
