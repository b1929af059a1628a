-- ===== src/Ui/Jobs/Members.antt =====
-- The jobs of a table, and a table that one has left.
use yapara_c.Prelude.{
  ℕ, zero, suc, ◌+◌, ◌≤◌, ◌<◌, Bool, true, List, [], ◌∷◌, ◌++◌, ◌≡◌, refl, ap, arith, ◌==◌,
  if◌then◌else◌, length, drop, Bool-cases, ◌⊎◌, inl, inr,
}
use yapara_c.Ui.Jobs.{Job, remove_job, has_job, read_lines}
use yapara_c.Ui.Options.{Bytes}
use yapara_c.Ui.Jobs.Retained.{indexes, count}

abbrev pub IsIn : Job → List Job → Type 0
IsIn job [] = ⊥
IsIn job (x ∷ jobs) = (x ≡ job) ⊎ IsIn job jobs

-- All these jobs run, or none does.
abbrev pub AllAre : (is_running : Bool) → List Job → Type 0
AllAre b [] = Unit
AllAre b (job ∷ jobs) = (job.is_running ≡ b) × AllAre b jobs

-- The indexes rise, from `low` on, and stay below `high`.
abbrev pub AreSorted : ℕ → ℕ → List Job → Type 0
AreSorted low high [] = low ≤ high
AreSorted low high (job ∷ jobs) = (low ≤ job.index) × AreSorted (suc job.index) high jobs

pub count-remove_job :
    (i j : ℕ) (jobs : List Job)
    → 0 < count i (indexes jobs)
    → count j (indexes jobs) ≡ count j (indexes (remove_job i jobs)) + (if i == j then 1 else 0)
unfolding remove_job
count-remove_job i j [] h = absurd (omega arith)
count-remove_job i j (job ∷ jobs) h = elim (Bool-cases (job.index == i)) [
  | inl same ↦ rw same (ground arith)
  | inr other ↦ rw other (ground (arith, count-remove_job i j jobs (ground arith)))
]

pub length-remove_job :
    (i : ℕ) (jobs : List Job)
    → 0 < count i (indexes jobs)
    → length jobs ≡ suc (length (remove_job i jobs))
unfolding remove_job
length-remove_job i [] h = absurd (omega arith)
length-remove_job i (job ∷ jobs) h = elim (Bool-cases (job.index == i)) [
  | inl same ↦ rw same refl
  | inr other ↦ rw other (ap suc (length-remove_job i jobs (ground arith)))
]

pub AllAre-remove_job :
    (b : Bool) (i : ℕ) (jobs : List Job) → AllAre b jobs → AllAre b (remove_job i jobs)
unfolding remove_job
AllAre-remove_job b i [] h = h
AllAre-remove_job b i (job ∷ jobs) (h, k) = elim (Bool-cases (job.index == i)) [
  | inl same ↦ rw same k
  | inr other ↦ rw other (h, AllAre-remove_job b i jobs k)
]

pub AllAre-drop : (b : Bool) (n : ℕ) (jobs : List Job) → AllAre b jobs → AllAre b (drop n jobs)
AllAre-drop b zero jobs h = h
AllAre-drop b (suc n) [] h = h
AllAre-drop b (suc n) (job ∷ jobs) h = AllAre-drop b n jobs h.1

pub AllAre-append : (b : Bool) (xs ys : List Job) → AllAre b xs → AllAre b ys → AllAre b (xs ++ ys)
AllAre-append b [] ys h k = k
AllAre-append b (x ∷ xs) ys h k = (h.0, AllAre-append b xs ys h.1 k)

pub AreSorted-weaken :
    (low lower high : ℕ) (jobs : List Job)
    → lower ≤ low
    → AreSorted low high jobs
    → AreSorted lower high jobs
AreSorted-weaken low lower high [] le h = omega arith
AreSorted-weaken low lower high (job ∷ jobs) le h = (omega (arith, h.0), h.1)

pub AreSorted-remove_job :
    (low high i : ℕ) (jobs : List Job)
    → AreSorted low high jobs
    → AreSorted low high (remove_job i jobs)
unfolding remove_job
AreSorted-remove_job low high i [] h = h
AreSorted-remove_job low high i (job ∷ jobs) (h, k) = elim (Bool-cases (job.index == i)) [
  | inl same ↦ rw same (AreSorted-weaken (suc job.index) low high jobs (omega arith) k)
  | inr other ↦ rw other (h, AreSorted-remove_job (suc job.index) high i jobs k)
]

pub AreSorted-append :
    (low high : ℕ) (jobs : List Job) (job : Job)
    → AreSorted low high jobs
    → job.index ≡ high
    → AreSorted low (suc high) (jobs ++ job ∷ [])
AreSorted-append low high [] job h e = (omega (arith, e), omega (arith, e))
AreSorted-append low high (x ∷ jobs) job h e =
    (h.0, AreSorted-append (suc x.index) high jobs job h.1 e)

pub IsIn-count : (job : Job) (jobs : List Job) → IsIn job jobs → 0 < count job.index (indexes jobs)
IsIn-count job [] h = absurd h
IsIn-count job (x ∷ jobs) (inl e) =
    let same : x.index ≡ job.index = ap (λ (j : Job). j.index) e in ground (arith, same)
IsIn-count job (x ∷ jobs) (inr h) = omega (arith, IsIn-count job jobs h)

pub has_job-count : (i : ℕ) (jobs : List Job) → has_job i jobs ≡ true → 0 < count i (indexes jobs)
unfolding has_job
has_job-count i [] h = absurd (cc)
has_job-count i (job ∷ jobs) h = elim (Bool-cases (job.index == i)) [
  | inl same ↦ rw same (omega arith)
  | inr other ↦ omega (arith, has_job-count i jobs (ground arith))
]

pub indexes-read_lines :
    (i fd : ℕ) (text : Bytes) (jobs : List Job) → indexes (read_lines i fd text jobs) ≡ indexes jobs
unfolding read_lines
indexes-read_lines i fd text [] = refl
indexes-read_lines i fd text (job ∷ jobs) = elim (Bool-cases (job.index == i)) [
  | inl same ↦ rw same (ap (◌∷◌ job.index) (indexes-read_lines i fd text jobs))
  | inr other ↦ rw other (ap (◌∷◌ job.index) (indexes-read_lines i fd text jobs))
]

pub length-read_lines :
    (i fd : ℕ) (text : Bytes) (jobs : List Job) → length (read_lines i fd text jobs) ≡ length jobs
unfolding read_lines
length-read_lines i fd text [] = refl
length-read_lines i fd text (job ∷ jobs) = ap suc (length-read_lines i fd text jobs)

pub AllAre-read_lines :
    (b : Bool) (i fd : ℕ) (text : Bytes) (jobs : List Job)
    → AllAre b jobs
    → AllAre b (read_lines i fd text jobs)
unfolding read_lines
AllAre-read_lines b i fd text [] h = h
AllAre-read_lines b i fd text (job ∷ jobs) (h, k) = elim (Bool-cases (job.index == i)) [
  | inl same ↦ rw same (h, AllAre-read_lines b i fd text jobs k)
  | inr other ↦ rw other (h, AllAre-read_lines b i fd text jobs k)
]

pub AreSorted-read_lines :
    (low high i fd : ℕ) (text : Bytes) (jobs : List Job)
    → AreSorted low high jobs
    → AreSorted low high (read_lines i fd text jobs)
unfolding read_lines
AreSorted-read_lines low high i fd text [] h = h
AreSorted-read_lines low high i fd text (job ∷ jobs) (h, k) = elim (Bool-cases (job.index == i)) [
  | inl same ↦ rw same (h, AreSorted-read_lines (suc job.index) high i fd text jobs k)
  | inr other ↦ rw other (h, AreSorted-read_lines (suc job.index) high i fd text jobs k)
]
