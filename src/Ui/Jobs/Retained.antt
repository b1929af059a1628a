-- ===== src/Ui/Jobs/Retained.antt =====
-- The jobs that a user interface retains once they have ended, and those that it has freed.
use yapara_c.Prelude.{
  ℕ, zero, suc, ◌+◌, ◌-◌, ◌≤◌, ◌<◌, Bool, true, false, List, [], ◌∷◌, ◌++◌, ◌≡◌, refl, ap, sym, ◌∙◌,
  append-nil, append_assoc, arith, ltb, ◌==◌, if◌then◌else◌, length, length-append,
  drop-append_of_lt, take-append_of_lt, length-drop, take-append-drop, leb, take, drop, Bool-cases,
  inl, inr,
}
use yapara_c.Shell.Types.{ChildStatus}
use yapara_c.Ui.Jobs.Ended.{IsEndOf, end_job-IsEndOf}
use yapara_c.Ui.Jobs.{
  Job, Ui, remove_job, trim_round, trim_rounds, ended_jobs_trim, end_job, count_ended, retire_job,
  release_job, child_done,
}

abbrev pub indexes : List Job → List ℕ
indexes [] = []
indexes (job ∷ jobs) = job.index ∷ indexes jobs

-- How often a job is among these.
abbrev pub count : ℕ → List ℕ → ℕ
count i [] = 0
count i (x ∷ xs) = (if x == i then 1 else 0) + count i xs

pub count-append : (i : ℕ) (xs ys : List ℕ) → count i (xs ++ ys) ≡ count i xs + count i ys
count-append i [] ys = omega arith
count-append i (x ∷ xs) ys = omega (arith, count-append i xs ys)

pub indexes-append : (xs ys : List Job) → indexes (xs ++ ys) ≡ indexes xs ++ indexes ys
indexes-append [] ys = refl
indexes-append (x ∷ xs) ys = ap (◌∷◌ x.index) (indexes-append xs ys)

pub count-indexes_append :
    (i : ℕ) (jobs : List Job) (job : Job)
    → count i (indexes (jobs ++ job ∷ []))
      ≡ count i (indexes jobs) + (if job.index == i then 1 else 0)
count-indexes_append i [] job = omega arith
count-indexes_append i (x ∷ jobs) job = omega (arith, count-indexes_append i jobs job)

remove_job-head : (job : Job) (jobs : List Job) → remove_job job.index (job ∷ jobs) ≡ jobs
unfolding remove_job
remove_job-head job jobs = ground arith

-- How many jobs there are too many.
abbrev pub excess : ℕ → List Job → ℕ
excess max jobs = length jobs - max

trim_round_within :
    (max : ℕ) (jobs : List Job) (destroyed : List ℕ)
    → length jobs ≤ max
    → trim_round max (jobs, destroyed) ≡ (jobs, destroyed)
unfolding trim_round
trim_round_within max [] destroyed h = refl
trim_round_within max (job ∷ jobs) destroyed h = ground arith

trim_rounds_within :
    (rounds max : ℕ) (jobs : List Job) (destroyed : List ℕ)
    → length jobs ≤ max
    → trim_rounds rounds max (jobs, destroyed) ≡ (jobs, destroyed)
unfolding trim_rounds
trim_rounds_within zero max jobs destroyed h = refl
trim_rounds_within (suc rounds) max jobs destroyed h =
    ap (trim_rounds rounds max) (trim_round_within max jobs destroyed h)
    ∙ trim_rounds_within rounds max jobs destroyed h

trim_round_beyond :
    (max : ℕ) (job : Job) (jobs : List Job) (destroyed : List ℕ)
    → max < suc (length jobs)
    → trim_round max (job ∷ jobs, destroyed) ≡ (jobs, destroyed ++ job.index ∷ [])
unfolding trim_round
trim_round_beyond max job jobs destroyed h = ground (arith, remove_job-head job jobs)

trim_rounds_lem_within :
    (rounds max : ℕ) (jobs : List Job) (destroyed : List ℕ)
    → length jobs ≤ max
    → trim_rounds rounds max (jobs, destroyed)
      ≡ (drop (excess max jobs) jobs, destroyed ++ indexes (take (excess max jobs) jobs))
trim_rounds_lem_within rounds max jobs destroyed within =
    let none_left : excess max jobs ≡ 0 = omega arith in
    trim_rounds_within rounds max jobs destroyed within
    ∙ rw none_left (ap (λ (d : List ℕ). (jobs, d)) (sym (append-nil destroyed)))

trim_rounds_beyond :
    (rounds max : ℕ) (job : Job) (jobs : List Job) (destroyed : List ℕ)
    → max < suc (length jobs)
    → trim_rounds (suc rounds) max (job ∷ jobs, destroyed)
      ≡ trim_rounds rounds max (jobs, destroyed ++ job.index ∷ [])
unfolding trim_rounds
trim_rounds_beyond rounds max job jobs destroyed h =
    ap (trim_rounds rounds max) (trim_round_beyond max job jobs destroyed h)

trim_rounds_lem :
    (rounds max : ℕ) (jobs : List Job) (destroyed : List ℕ)
    → length jobs ≤ rounds
    → trim_rounds rounds max (jobs, destroyed)
      ≡ (drop (excess max jobs) jobs, destroyed ++ indexes (take (excess max jobs) jobs))
trim_rounds_lem zero max jobs destroyed h =
    trim_rounds_lem_within 0 max jobs destroyed (omega arith)
trim_rounds_lem (suc rounds) max [] destroyed h =
    trim_rounds_lem_within (suc rounds) max [] destroyed (omega arith)
trim_rounds_lem (suc rounds) max (job ∷ jobs) destroyed h =
    elim (Bool-cases (leb (suc (length jobs)) max)) [
      | inl within ↦ trim_rounds_lem_within (suc rounds) max (job ∷ jobs) destroyed (ground arith)
      | inr beyond ↦
          let one_more : excess max (job ∷ jobs) ≡ suc (excess max jobs) = ground arith in
          trim_rounds_beyond rounds max job jobs destroyed (ground arith)
          ∙ trim_rounds_lem rounds max jobs (destroyed ++ job.index ∷ []) (omega arith)
          ∙ rw one_more (
              ap (λ (d : List ℕ). (drop (excess max jobs) jobs, d))
                (append_assoc destroyed (job.index ∷ []) (indexes (take (excess max jobs) jobs))))
    ]

-- `ended_jobs_trim` keeps the youngest jobs and frees the others, the oldest first.
pub ended_jobs_trim_lem :
    (ui : Ui)
    → ended_jobs_trim ui ≡ record ui {
      ended_jobs = drop (excess ui.max_ended_jobs ui.ended_jobs) ui.ended_jobs;
      destroyed =
          ui.destroyed ++ indexes (take (excess ui.max_ended_jobs ui.ended_jobs) ui.ended_jobs);
    }
unfolding ended_jobs_trim
ended_jobs_trim_lem ui =
    ap (λ (r : List Job × List ℕ). record ui { ended_jobs = r.0; destroyed = r.1 })
      (trim_rounds_lem (length ui.ended_jobs) ui.max_ended_jobs ui.ended_jobs ui.destroyed
        (omega arith))

-- Once `ended_jobs_trim` has run, no more jobs are retained than the limit.
pub length-ended_jobs_trim : (ui : Ui) → length (ended_jobs_trim ui).ended_jobs ≤ ui.max_ended_jobs
length-ended_jobs_trim ui =
    rw (ended_jobs_trim_lem ui)
      (omega (arith, length-drop (excess ui.max_ended_jobs ui.ended_jobs) ui.ended_jobs))

-- `ended_jobs_trim` frees what it drops, once.
pub count-ended_jobs_trim :
    (i : ℕ) (ui : Ui)
    → count i (indexes (ended_jobs_trim ui).ended_jobs) + count i (ended_jobs_trim ui).destroyed
      ≡ count i (indexes ui.ended_jobs) + count i ui.destroyed
count-ended_jobs_trim i ui =
    let n = excess ui.max_ended_jobs ui.ended_jobs in
    rw (ended_jobs_trim_lem ui) (
      omega (
        arith,
        count-append i ui.destroyed (indexes (take n ui.ended_jobs)),
        count-append i (indexes (take n ui.ended_jobs)) (indexes (drop n ui.ended_jobs)),
        ap (count i) (
            sym (indexes-append (take n ui.ended_jobs) (drop n ui.ended_jobs))
            ∙ ap indexes (take-append-drop n ui.ended_jobs)),
      ))

-- The job table once a job has been added to those that are retained, and the table is trimmed.
abbrev pub trimmed_with : Job → Ui → Ui
trimmed_with ended ui =
    let all = ui.ended_jobs ++ ended ∷ [] in
    record ui {
      ended_jobs = drop (excess ui.max_ended_jobs all) all;
      destroyed = ui.destroyed ++ indexes (take (excess ui.max_ended_jobs all) all);
    }

pub retire_job-trimmed_with :
    (wants_lines : Bool) (status : ChildStatus) (value : ℕ) (job : Job) (ui : Ui)
    → 0 < ui.max_ended_jobs
    → retire_job wants_lines status value job ui
      ≡ trimmed_with (end_job wants_lines status value job) (count_ended status value job ui)
unfolding retire_job count_ended
retire_job-trimmed_with wants_lines status value job ui h =
    let retains : ltb 0 ui.max_ended_jobs ≡ true = ground arith in
    rw retains (ended_jobs_trim_lem _)

pub retire_job-none :
    (wants_lines : Bool) (status : ChildStatus) (value : ℕ) (job : Job) (ui : Ui)
    → ui.max_ended_jobs ≡ 0
    → retire_job wants_lines status value job ui ≡ count_ended status value job ui
unfolding retire_job
retire_job-none wants_lines status value job ui h =
    let retains : ltb 0 ui.max_ended_jobs ≡ false = ground arith in rw retains

pub release_job-kept :
    (job_ended : ℕ → ℕ) (job : Job) (ui : Ui)
    → 0 < job_ended ui.max_ended_jobs
    → release_job job_ended job ui ≡ record ui { max_ended_jobs = job_ended ui.max_ended_jobs }
unfolding release_job
release_job-kept job_ended job ui h =
    let stays : (job_ended ui.max_ended_jobs == 0) ≡ false = ground arith in rw stays

pub release_job-freed :
    (job_ended : ℕ → ℕ) (job : Job) (ui : Ui)
    → job_ended ui.max_ended_jobs ≡ 0
    → release_job job_ended job ui
      ≡ record ui { max_ended_jobs = 0; destroyed = ui.destroyed ++ job.index ∷ [] }
unfolding release_job
release_job-freed job_ended job ui h = rw h

pub count-trimmed_with :
    (ended : Job) (ui : Ui) (i : ℕ)
    → count i (indexes (trimmed_with ended ui).ended_jobs)
        + count i (trimmed_with ended ui).destroyed
      ≡ (count i (indexes ui.ended_jobs) + count i ui.destroyed)
        + (if ended.index == i then 1 else 0)
count-trimmed_with ended ui i =
    let retained : Ui = record ui { ended_jobs = ui.ended_jobs ++ ended ∷ [] } in
    let e = count-ended_jobs_trim i retained in
    let all = rw (ended_jobs_trim_lem retained) at e in
    all ∙ omega (arith, count-indexes_append i ui.ended_jobs ended)

-- Where a user interface retains jobs, the job whose child is done joins the retained ones as the
-- youngest, ended with the status of the child and told its last lines if these are wanted; the
-- oldest are then freed, in order, until no more are retained than the limit; the job itself stays;
-- and nothing else is freed. The back end's `job_ended` leaves the limit as it is.
pub child_done-ended_jobs :
    (wants_lines : Bool) (status : ChildStatus) (value : ℕ) (job : Job) (ui : Ui)
    → 0 < ui.max_ended_jobs
    → let n = suc (length ui.ended_jobs) - ui.max_ended_jobs in
      let after = child_done wants_lines (λ max. max) status value job ui in
      (last : Job) × IsEndOf wants_lines status value job last
      × (after.ended_jobs ≡ drop n ui.ended_jobs ++ last ∷ [])
      × (after.destroyed ≡ ui.destroyed ++ indexes (take n ui.ended_jobs))
      × (length after.ended_jobs ≤ ui.max_ended_jobs)
unfolding child_done count_ended
child_done-ended_jobs wants_lines status value job ui h =
    let ended = end_job wants_lines status value job in
    let all = ui.ended_jobs ++ ended ∷ [] in
    let n = suc (length ui.ended_jobs) - ui.max_ended_jobs in
    let few : n ≤ length ui.ended_jobs = omega arith in
    let same : excess ui.max_ended_jobs all ≡ n =
      omega (arith, length-append ui.ended_jobs (ended ∷ [])) in
    rw
      (
        retire_job-trimmed_with wants_lines status value job ui h,
        release_job-kept (λ max. max) job (trimmed_with ended (count_ended status value job ui)) h,
        same,
      )
      (
        ended,
        end_job-IsEndOf wants_lines status value job,
        drop-append_of_lt n ui.ended_jobs (ended ∷ []) few,
        ap (λ l. ui.destroyed ++ indexes l) (take-append_of_lt n ui.ended_jobs (ended ∷ []) few),
        omega (arith, length-drop n all, length-append ui.ended_jobs (ended ∷ [])),
      )
