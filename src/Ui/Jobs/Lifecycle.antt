-- ===== src/Ui/Jobs/Lifecycle.antt =====
-- What holds after any events in the life of a user interface's job table.
use yapara_c.Prelude.{
  ℕ, suc, ◌+◌, ◌%◌, ◌^◌, ◌≤◌, ◌<◌, Bool, true, false, List, [], ◌∷◌, ◌++◌, ◌≡◌, refl, ap, arith,
  ◌==◌, if◌then◌else◌, length, inl, inr,
}
use yapara_c.Shell.Types.{ChildStatus}
use yapara_c.Ui.Jobs.{Job, Ui, end_job, count_ended, child_done, ended_jobs_trim, free}
use yapara_c.Ui.Jobs.Members.{
  IsIn, AllAre, AreSorted, count-remove_job, length-remove_job, AllAre-remove_job, AllAre-drop,
  AllAre-append, AreSorted-remove_job, IsIn-count,
}
use yapara_c.Ui.Jobs.Retained.{
  indexes, count, count-append, trimmed_with, retire_job-trimmed_with, retire_job-none,
  release_job-kept, release_job-freed, count-trimmed_with, count-ended_jobs_trim,
  length-ended_jobs_trim,
}
use yapara_c.Ui.Jobs.Events.{
  LeavesRetaining, Step, spawned, read, done, reaped, limited, Reaches, start, next, one_below,
  WellFormed, new-WellFormed, spawn-WellFormed, child_io-WellFormed, reap_job-WellFormed,
  limited-WellFormed,
}

nil_of_length : {A : Type 0} (xs : List A) → length xs ≡ 0 → xs ≡ []
nil_of_length [] h = refl
nil_of_length (x ∷ xs) h = absurd (omega arith)

-- The counts are right once the child of a job is done, and the job is in neither list.
pub record IsBetween (job : Job) (ui : Ui) : Type 0 where
  pub bounded : ui.n_started < 2 ^ 64
  pub counted : ui.n_started ≡ length ui.jobs + ui.n_ended
  pub failed_ended : ui.n_failed ≤ ui.n_ended
  pub once :
      (i : ℕ)
      → count i (indexes ui.jobs)
          + (count i (indexes ui.ended_jobs) + count i ui.destroyed)
          + (if job.index == i then 1 else 0)
        ≡ one_below i ui.n_started
  pub running : AllAre true ui.jobs
  pub ended : AllAre false ui.ended_jobs
  pub in_order : AreSorted 0 ui.n_started ui.jobs

pub count_ended-IsBetween :
    (status : ChildStatus) (value : ℕ) (job : Job) (ui : Ui)
    → IsIn job ui.jobs
    → WellFormed ui
    → IsBetween job (count_ended status value job ui)
unfolding count_ended
count_ended-IsBetween status value job ui here wf =
    let there = IsIn-count job ui.jobs here in
    let fewer = length-remove_job job.index ui.jobs there in
    let no_wrap : (ui.n_ended + 1) % 2 ^ 64 ≡ suc ui.n_ended =
      omega (arith, wf.counted, fewer, wf.bounded) in
    let no_wrap_failed : (ui.n_failed + 1) % 2 ^ 64 ≡ suc ui.n_failed =
      omega (arith, wf.counted, fewer, wf.bounded, wf.failed_ended) in
    record {
      bounded = wf.bounded;
      counted = omega (arith, wf.counted, fewer, no_wrap);
      failed_ended = ground (arith, wf.failed_ended, no_wrap, no_wrap_failed);
      once = λ i. omega (arith, wf.once i, count-remove_job job.index i ui.jobs there);
      running = AllAre-remove_job true job.index ui.jobs wf.running;
      ended = wf.ended;
      in_order = AreSorted-remove_job 0 ui.n_started job.index ui.jobs wf.in_order;
    }

pub trimmed_with-WellFormed :
    (ended : Job) (ui : Ui)
    → ended.is_running ≡ false
    → IsBetween ended ui
    → WellFormed (trimmed_with ended ui)
trimmed_with-WellFormed ended ui stopped mid = record {
  bounded = mid.bounded;
  counted = mid.counted;
  failed_ended = mid.failed_ended;
  once = λ i. omega (arith, mid.once i, count-trimmed_with ended ui i);
  running = mid.running;
  ended =
      AllAre-drop false _ (ui.ended_jobs ++ ended ∷ [])
        (AllAre-append false ui.ended_jobs (ended ∷ []) mid.ended (stopped, tt));
  in_order = mid.in_order;
}

freed-WellFormed :
    (job : Job) (ui : Ui)
    → IsBetween job ui
    → WellFormed (record ui { destroyed = ui.destroyed ++ job.index ∷ [] })
freed-WellFormed job ui mid = record {
  bounded = mid.bounded;
  counted = mid.counted;
  failed_ended = mid.failed_ended;
  once = λ i. omega (arith, mid.once i, count-append i ui.destroyed (job.index ∷ []));
  running = mid.running;
  ended = mid.ended;
  in_order = mid.in_order;
}

pub end_job-IsBetween :
    (wants_lines : Bool) (status : ChildStatus) (value : ℕ) (job : Job) (ui : Ui)
    → IsBetween job ui
    → IsBetween (end_job wants_lines status value job) ui
unfolding end_job
end_job-IsBetween wants_lines status value job ui mid = record {
  bounded = mid.bounded;
  counted = mid.counted;
  failed_ended = mid.failed_ended;
  once = mid.once;
  running = mid.running;
  ended = mid.ended;
  in_order = mid.in_order;
}

pub end_job-stopped :
    (wants_lines : Bool) (status : ChildStatus) (value : ℕ) (job : Job)
    → (end_job wants_lines status value job).is_running ≡ false
unfolding end_job
end_job-stopped wants_lines status value job = refl

child_done-WellFormed :
    (wants_lines : Bool) (job_ended : ℕ → ℕ) (status : ChildStatus) (value : ℕ) (job : Job)
    (ui : Ui)
    → IsIn job ui.jobs
    → LeavesRetaining job_ended ui.max_ended_jobs
    → WellFormed ui
    → WellFormed (child_done wants_lines job_ended status value job ui)
unfolding child_done
child_done-WellFormed wants_lines job_ended status value job ui here (inl (none_kept, still)) wf =
    let counted = count_ended status value job ui in
    let mid = count_ended-IsBetween status value job ui here wf in
    rw
      (
        retire_job-none wants_lines status value job ui none_kept,
        release_job-freed job_ended job counted (unfold count_ended in still),
      )
      (limited-WellFormed 0 _ (freed-WellFormed job counted mid))
child_done-WellFormed wants_lines job_ended status value job ui here (inr (kept, still)) wf =
    let counted = count_ended status value job ui in
    let ended = end_job wants_lines status value job in
    let mid =
      end_job-IsBetween wants_lines status value job counted
        (count_ended-IsBetween status value job ui here wf) in
    rw
      (
        retire_job-trimmed_with wants_lines status value job ui kept,
        release_job-kept job_ended job (trimmed_with ended counted) (unfold count_ended in still),
      )
      (limited-WellFormed _ _
        (trimmed_with-WellFormed ended counted (end_job-stopped wants_lines status value job) mid))

Step-WellFormed : {ui after : Ui} → Step ui after → WellFormed ui → WellFormed after
Step-WellFormed (spawned child_new captures info cmdline ui small) wf =
    spawn-WellFormed child_new captures info cmdline ui small wf
Step-WellFormed (read wants_lines job fd text ui) wf =
    child_io-WellFormed wants_lines job fd text ui wf
Step-WellFormed (done wants_lines job_ended status value job ui here leaves) wf =
    child_done-WellFormed wants_lines job_ended status value job ui here leaves wf
Step-WellFormed (reaped job ui after e) wf = reap_job-WellFormed job ui after e wf
Step-WellFormed (limited max ui) wf = limited-WellFormed max ui wf

-- After any sequence of events from a new user interface (a job is started or its start fails, a
-- child is read, a child is done, an ended job is reaped, the limit of retained jobs is changed;
-- `job_ended` neither starts nor stops the retaining of jobs, and fewer than 2 ^ 64 jobs are
-- started): as many jobs have been started as run or have ended; no more have failed than ended;
-- each job that was started is in exactly one place, the running jobs, the retained ones or those
-- that were freed, there once, and no other job is in any; all of the first run and none of the
-- second do; and the running jobs stand in the order of their start.
pub Reaches-WellFormed : {max : ℕ} {ui : Ui} → Reaches max ui → WellFormed ui
Reaches-WellFormed {max} start = new-WellFormed max
Reaches-WellFormed (next r step) = Step-WellFormed step (Reaches-WellFormed r)

-- `yc_ui_free` frees what is retained, once.
pub free-frees :
    (ui : Ui)
    → ((free ui).ended_jobs ≡ [])
      × ((i : ℕ)
          → count i (free ui).destroyed ≡ count i (indexes ui.ended_jobs) + count i ui.destroyed)
unfolding free
free-frees ui =
    let closing : Ui = record ui { max_ended_jobs = 0 } in
    let none_left = length-ended_jobs_trim closing in
    let empty : (ended_jobs_trim closing).ended_jobs ≡ [] =
      nil_of_length _ (omega (arith, none_left)) in
    (
      empty,
      λ i. omega (arith, count-ended_jobs_trim i closing, ap (λ l. count i (indexes l)) empty),
    )

-- After any sequence of events from a new user interface (`job_ended` neither starts nor stops the
-- retaining of jobs, and fewer than 2 ^ 64 jobs are started), `yc_ui_free` leaves no job retained,
-- and has each job that was started and does not run freed exactly once, and no other: a job that
-- still runs is not freed.
pub free-count :
    {max : ℕ} (ui : Ui)
    → Reaches max ui
    → ((free ui).ended_jobs ≡ [])
      × ((i : ℕ)
          → count i (free ui).destroyed + count i (indexes ui.jobs) ≡ one_below i ui.n_started)
free-count ui r =
    let wf = Reaches-WellFormed r in
    let (empty, counts) = free-frees ui in (empty, λ i. omega (arith, wf.once i, counts i))
