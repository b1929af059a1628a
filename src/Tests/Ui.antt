-- ===== src/Tests/Ui.antt =====
-- The theorems on src/yc-ui.c at concrete inputs.
use yapara_c.Prelude.{
  ℕ, suc, ◌+◌, ◌-◌, ◌<◌, ◌≤◌, true, false, List, [], ◌∷◌, ◌++◌, Option, none, some, ◌≡◌, inl, inr,
  refl, arith, ltb, if◌then◌else◌, length, drop, take, get_or, replicate,
}
use yapara_c.Shell.Types.{FdInfo, CreateInfo, mode_file, status_running, status_exited}
use yapara_c.Ui.Options.{Bytes, IndexFormat}
use yapara_c.Ui.Index.{index_buf_size, radix_of, format_index}
use yapara_c.Ui.Index.Format.{read_number, pad_of, width_of, format_index-read}
use yapara_c.Ui.Lines.{flush_pending_lines}
use yapara_c.Ui.Lines.Chunks.{
  Chunk, text_of, deliver_all, no_lines, AreTold, IsToldWhole, deliver_all-AreTold,
}
use yapara_c.Ui.Jobs.{
  Job, Ui, new, spawn, add_job, child_done, redirect_job, blank_lines, free, no_fd, is_inherit,
}
use yapara_c.Ui.Jobs.Ended.{IsEndOf}
use yapara_c.Ui.Jobs.Retained.{indexes, count, child_done-ended_jobs}
use yapara_c.Ui.Jobs.Members.{IsIn}
use yapara_c.Ui.Jobs.Events.{Reaches, start, next, spawned, done, one_below, WellFormed}
use yapara_c.Ui.Jobs.Lifecycle.{Reaches-WellFormed, free-count}
use yapara_c.Ui.Jobs.Dangling.{IsFreedTwice, child_done-dangling}
use yapara_c.Ui.Jobs.Redirects.{redirected_fd, redirect_job-fd_infos}

-- Four hexadecimal digits, with zeros in front.
abbrev hex_format : IndexFormat
hex_format = record { hex = true; width = 4; zero_pad = true }

format_index-read_example :
    (n : ℕ) × (shown : Bytes) × (format_index hex_format 0x2a index_buf_size
      ≡ replicate n (pad_of hex_format) ++ shown)
    × (read_number (radix_of hex_format) 0 shown ≡ 0x2a)
    × (n + length shown
        ≡ (if ltb (length shown) (width_of hex_format) then width_of hex_format else length shown))
format_index-read_example = format_index-read hex_format 0x2a (omega arith)

-- A line of stdout in two chunks, with one of stderr between them.
abbrev three_chunks : List Chunk
three_chunks =
    (1, b'a' ∷ b'\r' ∷ b'\n' ∷ b'b' ∷ [])
    ∷ (2, b'x' ∷ b'\n' ∷ [])
    ∷ (1, b'c' ∷ b'\n' ∷ b'd' ∷ [])
    ∷ []

deliver_all-AreTold_example :
    AreTold (text_of 1 three_chunks) (text_of 2 three_chunks) (deliver_all three_chunks no_lines)
    × IsToldWhole 1
        (text_of 1 three_chunks)
        (flush_pending_lines true (deliver_all three_chunks no_lines)).events
    × IsToldWhole 2
        (text_of 2 three_chunks)
        (flush_pending_lines true (deliver_all three_chunks no_lines)).events
deliver_all-AreTold_example = deliver_all-AreTold three_chunks

-- A command whose stdout goes to a file.
abbrev to_file : FdInfo
to_file = record no_fd { mode = mode_file; filename = some (b'f' ∷ []) }

abbrev request : CreateInfo
request = record {
  env = none;
  argv = (b'a' ∷ []) ∷ [];
  program = none;
  fd_infos = no_fd ∷ to_file ∷ no_fd ∷ [];
  other_fd_infos = [];
}

redirect_job-fd_infos_example :
    (redirect_job true request ≡ record request { fd_infos = (redirect_job true request).fd_infos })
    × (get_or (redirect_job true request).fd_infos 2 no_fd ≡ redirected_fd true 2 no_fd)
    × (is_inherit (get_or (redirect_job true request).fd_infos 2 no_fd).mode ≡ false)
redirect_job-fd_infos_example = redirect_job-fd_infos true request 2 refl (omega arith)

abbrev job_of : ℕ → Job
job_of index = record {
  index = index;
  cmdline = b'a' ∷ [];
  pid = 7;
  is_running = true;
  status = status_running;
  status_value = 0;
  lines = blank_lines;
}

abbrev start_child : CreateInfo → Option ℕ
start_child info = some 7

-- Two jobs have been started, one job at most is retained, and then the first ends.
abbrev one_started : Ui
one_started = spawn start_child true request (b'a' ∷ []) (new 1)

abbrev two_started : Ui
two_started = spawn start_child true request (b'a' ∷ []) one_started

abbrev first_ended : Ui
first_ended = child_done true (λ max. max) status_exited 1 (job_of 0) two_started

two_started-Reaches : Reaches 1 two_started
unfolding spawn add_job new
two_started-Reaches =
    next (next start (spawned start_child true request (b'a' ∷ []) (new 1) (omega arith)))
      (spawned start_child true request (b'a' ∷ []) one_started (omega arith))

first-IsIn : IsIn (job_of 0) two_started.jobs
unfolding spawn add_job new
first-IsIn = inl refl

two_started-retains : 0 < two_started.max_ended_jobs
unfolding spawn add_job new
two_started-retains = omega arith

first_ended-Reaches : Reaches 1 first_ended
first_ended-Reaches = next two_started-Reaches (
    done true (λ max. max) status_exited 1 (job_of 0) two_started first-IsIn
      (inr (two_started-retains, two_started-retains)))

Reaches-WellFormed_example : WellFormed first_ended
Reaches-WellFormed_example = Reaches-WellFormed first_ended-Reaches

free-count_example :
    ((free first_ended).ended_jobs ≡ [])
    × ((i : ℕ)
        → count i (free first_ended).destroyed + count i (indexes first_ended.jobs)
          ≡ one_below i first_ended.n_started)
free-count_example = free-count first_ended first_ended-Reaches

-- The first job, with the beginning of a line of stdout.
abbrev talking : Job
talking = record (job_of 0) {
  lines = record { out_pending = b'h' ∷ b'\r' ∷ []; err_pending = []; events = [] };
}

child_done-ended_jobs_example :
    let n = suc (length two_started.ended_jobs) - two_started.max_ended_jobs in
    let after = child_done true (λ max. max) status_exited 1 talking two_started in
    (last : Job) × IsEndOf true status_exited 1 talking last
    × (after.ended_jobs ≡ drop n two_started.ended_jobs ++ last ∷ [])
    × (after.destroyed ≡ two_started.destroyed ++ indexes (take n two_started.ended_jobs))
    × (length after.ended_jobs ≤ two_started.max_ended_jobs)
child_done-ended_jobs_example =
    child_done-ended_jobs true status_exited 1 talking two_started two_started-retains

child_done-dangling_example :
    IsFreedTwice 0 (child_done true (λ limit. 0) status_exited 1 (job_of 0) two_started)
child_done-dangling_example =
    child_done-dangling true status_exited 1 (job_of 0) two_started two_started-Reaches first-IsIn
      two_started-retains
