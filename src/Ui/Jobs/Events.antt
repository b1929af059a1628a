-- ===== src/Ui/Jobs/Events.antt =====
-- The events in the life of a user interface's job table, and what all of them keep.
use yapara_c.Prelude.{
  ℕ, suc, ◌+◌, ◌%◌, ◌^◌, ◌≤◌, ◌<◌, Bool, true, false, [], ◌∷◌, ◌++◌, Option, none, some, ◌≡◌, refl,
  subst, arith, ltb, ◌==◌, if◌then◌else◌, length, length-append, Bool-cases, ◌⊎◌, inl, inr,
}
use yapara_c.Ui.Options.{Bytes}
use yapara_c.Shell.Types.{ChildStatus, CreateInfo}
use yapara_c.Ui.Jobs.{
  Job, Ui, new, add_job, spawn, redirect_job, remove_job, has_job, reap_job, child_io, child_done,
}
use yapara_c.Ui.Jobs.Members.{
  IsIn, AllAre, AreSorted, count-remove_job, AllAre-remove_job, AllAre-append, AreSorted-append,
  has_job-count, indexes-read_lines, length-read_lines, AllAre-read_lines, AreSorted-read_lines,
}
use yapara_c.Ui.Jobs.Retained.{indexes, count, count-append, count-indexes_append}

-- `job_ended` neither starts nor stops the retaining of jobs.
abbrev pub LeavesRetaining : (ℕ → ℕ) → ℕ → Type 0
LeavesRetaining job_ended max =
    ((max ≡ 0) × (job_ended max ≡ 0)) ⊎ ((0 < max) × (0 < job_ended max))

-- The events. A child is done once, while its job is in the table; and fewer than 2 ^ 64 jobs are
-- started.
pub data Step : Ui → Ui → Type 0 where
  spawned :
      (child_new : CreateInfo → Option ℕ) (captures : Bool) (info : CreateInfo) (cmdline : Bytes)
      (ui : Ui)
      → ui.n_started + 1 < 2 ^ 64
      → Step ui (spawn child_new captures info cmdline ui)
  read :
      (wants_lines : Bool) (job : Job) (fd : ℕ) (text : Bytes) (ui : Ui)
      → Step ui (child_io wants_lines job fd text ui)
  done :
      (wants_lines : Bool) (job_ended : ℕ → ℕ) (status : ChildStatus) (value : ℕ) (job : Job)
      (ui : Ui)
      → IsIn job ui.jobs
      → LeavesRetaining job_ended ui.max_ended_jobs
      → Step ui (child_done wants_lines job_ended status value job ui)
  reaped : (job : Job) (ui after : Ui) → reap_job job ui ≡ some after → Step ui after
  limited : (max : ℕ) (ui : Ui) → Step ui (record ui { max_ended_jobs = max })

-- What a new user interface comes to.
pub data Reaches (max : ℕ) : Ui → Type 0 where
  start : Reaches max (new max)
  next : {ui after : Ui} → Reaches max ui → Step ui after → Reaches max after

abbrev pub one_below : ℕ → ℕ → ℕ
one_below i n = if ltb i n then 1 else 0

one_below-suc : (i n : ℕ) → one_below i (suc n) ≡ one_below i n + (if n == i then 1 else 0)
one_below-suc i n = ground arith

pub record WellFormed (ui : Ui) : Type 0 where
  pub bounded : ui.n_started < 2 ^ 64
  pub counted : ui.n_started ≡ length ui.jobs + ui.n_ended
  pub failed_ended : ui.n_failed ≤ ui.n_ended
  -- Each job that was started is in one of the three lists, once, and no other is in any.
  pub once :
      (i : ℕ)
      → count i (indexes ui.jobs) + (count i (indexes ui.ended_jobs) + count i ui.destroyed)
        ≡ one_below i ui.n_started
  pub running : AllAre true ui.jobs
  pub ended : AllAre false ui.ended_jobs
  pub in_order : AreSorted 0 ui.n_started ui.jobs

pub new-WellFormed : (max : ℕ) → WellFormed (new max)
unfolding new
new-WellFormed max = record {
  bounded = omega arith;
  counted = omega arith;
  failed_ended = omega arith;
  once = λ i. ground arith;
  running = tt;
  ended = tt;
  in_order = omega arith;
}

add_job-WellFormed :
    (cmdline : Bytes) (pid : ℕ) (ui : Ui)
    → ui.n_started + 1 < 2 ^ 64
    → WellFormed ui
    → WellFormed (add_job cmdline pid ui)
unfolding add_job
add_job-WellFormed cmdline pid ui small wf =
    let no_wrap : (ui.n_started + 1) % 2 ^ 64 ≡ suc ui.n_started = omega arith in
    rw no_wrap (record {
      bounded = omega arith;
      counted = omega (arith, wf.counted, length-append ui.jobs (_ ∷ []));
      failed_ended = wf.failed_ended;
      once = λ i.
          omega (arith, wf.once i, count-indexes_append i ui.jobs _, one_below-suc i ui.n_started);
      running = AllAre-append true ui.jobs (_ ∷ []) wf.running (refl, tt);
      ended = wf.ended;
      in_order = AreSorted-append 0 ui.n_started ui.jobs _ wf.in_order refl;
    })

pub spawn-WellFormed :
    (child_new : CreateInfo → Option ℕ) (captures : Bool) (info : CreateInfo) (cmdline : Bytes)
    (ui : Ui)
    → ui.n_started + 1 < 2 ^ 64
    → WellFormed ui
    → WellFormed (spawn child_new captures info cmdline ui)
unfolding spawn
spawn-WellFormed child_new captures info cmdline ui small wf =
    by_child (child_new (redirect_job captures info))
  where
    by_child :
        (child : Option ℕ)
        → WellFormed (elim child [ none ↦ ui | some pid ↦ add_job cmdline pid ui ])
    by_child none = wf
    by_child (some pid) = add_job-WellFormed cmdline pid ui small wf

pub child_io-WellFormed :
    (wants_lines : Bool) (job : Job) (fd : ℕ) (text : Bytes) (ui : Ui)
    → WellFormed ui
    → WellFormed (child_io wants_lines job fd text ui)
unfolding child_io
child_io-WellFormed false job fd text ui wf = wf
child_io-WellFormed true job fd text ui wf = record {
  bounded = wf.bounded;
  counted = omega (arith, wf.counted, length-read_lines job.index fd text ui.jobs);
  failed_ended = wf.failed_ended;
  once = λ i. rw (indexes-read_lines job.index fd text ui.jobs) (wf.once i);
  running = AllAre-read_lines true job.index fd text ui.jobs wf.running;
  ended = wf.ended;
  in_order = AreSorted-read_lines 0 ui.n_started job.index fd text ui.jobs wf.in_order;
}

pub reap_job-WellFormed :
    (job : Job) (ui after : Ui) → reap_job job ui ≡ some after → WellFormed ui → WellFormed after
unfolding reap_job
reap_job-WellFormed job ui after e wf = elim (Bool-cases (has_job job.index ui.ended_jobs)) [
  | inl found ↦
      let reaped : Ui = record ui {
        ended_jobs = remove_job job.index ui.ended_jobs;
        destroyed = ui.destroyed ++ job.index ∷ [];
      } in
      let same : some reaped ≡ some after = rw found at e in
      let there = has_job-count job.index ui.ended_jobs found in
      let reaped_WellFormed : WellFormed reaped = record {
        bounded = wf.bounded;
        counted = wf.counted;
        failed_ended = wf.failed_ended;
        once = λ i. omega (
          arith,
          wf.once i,
          count-remove_job job.index i ui.ended_jobs there,
          count-append i ui.destroyed (job.index ∷ []),
        );
        running = wf.running;
        ended = AllAre-remove_job false job.index ui.ended_jobs wf.ended;
        in_order = wf.in_order;
      } in
      subst WellFormed (cc) reaped_WellFormed
  | inr missing ↦ let nothing : ◌≡◌ {A = Option Ui} none (some after) = rw missing at e in cc
]

pub limited-WellFormed :
    (max : ℕ) (ui : Ui) → WellFormed ui → WellFormed (record ui { max_ended_jobs = max })
limited-WellFormed max ui wf = record {
  bounded = wf.bounded;
  counted = wf.counted;
  failed_ended = wf.failed_ended;
  once = wf.once;
  running = wf.running;
  ended = wf.ended;
  in_order = wf.in_order;
}
