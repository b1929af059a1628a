-- ===== src/Ui/Jobs/Dangling.antt =====
-- What becomes of a job whose end has the user interface stop retaining jobs.
use yapara_c.Prelude.{
  ℕ, suc, ◌≤◌, ◌<◌, Bool, [], ◌∷◌, ◌++◌, ◌≡◌, refl, arith, length, length-append, drop-append_of_lt,
  drop,
}
use yapara_c.Shell.Types.{ChildStatus}
use yapara_c.Ui.Jobs.{Job, Ui, end_job, count_ended, child_done, free}
use yapara_c.Ui.Jobs.Members.{IsIn}
use yapara_c.Ui.Jobs.Retained.{
  indexes, count, count-append, count-indexes_append, trimmed_with, retire_job-trimmed_with,
  release_job-freed, excess,
}
use yapara_c.Ui.Jobs.Events.{Reaches, WellFormed}
use yapara_c.Ui.Jobs.Lifecycle.{
  count_ended-IsBetween, end_job-IsBetween, end_job-stopped, trimmed_with-WellFormed,
  Reaches-WellFormed, free-frees,
}

Retained-count :
    (ended : Job) (ui : Ui)
    → 0 < ui.max_ended_jobs
    → 0 < count ended.index (indexes (trimmed_with ended ui).ended_jobs)
Retained-count ended ui kept =
    let n = excess ui.max_ended_jobs (ui.ended_jobs ++ ended ∷ []) in
    let few : n ≤ length ui.ended_jobs = omega (arith, length-append ui.ended_jobs (ended ∷ [])) in
    rw (drop-append_of_lt n ui.ended_jobs (ended ∷ []) few)
      (ground (arith, count-indexes_append ended.index (drop n ui.ended_jobs) ended))

-- A retained job that is freed, and what follows of it.
abbrev pub IsFreedTwice : ℕ → Ui → Type 0
IsFreedTwice i after =
    (0 < count i (indexes after.ended_jobs))
    × (0 < count i after.destroyed)
    × (count i (free after).destroyed ≡ 2)

freed-IsFreedTwice :
    (i : ℕ) (ui : Ui)
    → WellFormed ui
    → 0 < count i (indexes ui.ended_jobs)
    → IsFreedTwice i (record ui { max_ended_jobs = 0; destroyed = ui.destroyed ++ i ∷ [] })
freed-IsFreedTwice i ui wf there =
    let after : Ui = record ui { max_ended_jobs = 0; destroyed = ui.destroyed ++ i ∷ [] } in
    let once = wf.once i in
    let twice = (free-frees after).1 i in
    let freed : count i (ui.destroyed ++ i ∷ []) ≡ suc (count i ui.destroyed) =
      ground (arith, count-append i ui.destroyed (i ∷ [])) in
    (there, omega (arith, freed), ground (arith, twice, freed, once, there))

-- A `job_ended` that sets `max_ended_jobs` to 0 while jobs are retained has the very job it is
-- told of freed though it is retained: it is in `ended_jobs` and among the freed jobs, and after
-- `yc_ui_free` it has been freed twice.
pub child_done-dangling :
    {max : ℕ} (wants_lines : Bool) (status : ChildStatus) (value : ℕ) (job : Job) (ui : Ui)
    → Reaches max ui
    → IsIn job ui.jobs
    → 0 < ui.max_ended_jobs
    → IsFreedTwice job.index (child_done wants_lines (λ limit. 0) status value job ui)
unfolding child_done
child_done-dangling wants_lines status value job ui r here kept =
    let counted = count_ended status value job ui in
    let ended = end_job wants_lines status value job in
    let mid =
      end_job-IsBetween wants_lines status value job counted
        (count_ended-IsBetween status value job ui here (Reaches-WellFormed r)) in
    let t = trimmed_with ended counted in
    let wf =
      trimmed_with-WellFormed ended counted (end_job-stopped wants_lines status value job) mid in
    let still = Retained-count ended counted (unfold count_ended in kept) in
    rw
      (
        retire_job-trimmed_with wants_lines status value job ui kept,
        release_job-freed (λ limit. 0) job t refl,
      )
      (freed-IsFreedTwice job.index t wf (unfold end_job in still))
