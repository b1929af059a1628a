-- ===== src/Ui/Jobs/Ended.antt =====
-- The job that `ui_child_done` leaves, with its last lines.
use yapara_c.Prelude.{
  ℕ, zero, suc, Bool, true, false, List, [], ◌++◌, map, ◌≡◌, refl, ap, sym, ◌∙◌, append-nil, arith,
  ◌==◌, if◌then◌else◌,
}
use yapara_c.Shell.Types.{ChildStatus}
use yapara_c.Ui.Options.{Bytes}
use yapara_c.Ui.Lines.{LineState, strip_cr, flush_line, emit_line, flush_pending_lines}
use yapara_c.Ui.Lines.Scan.{texts_of}
use yapara_c.Ui.Lines.Stripped.{AreStripped, none_left, map-AreStripped, unended}
use yapara_c.Ui.Lines.Chunks.{last_line, flush_pending_lines-texts_of}
use yapara_c.Ui.Jobs.{Job, end_job}

-- What a descriptor of a job has pending.
abbrev pub pending_of : ℕ → LineState → Bytes
pending_of fd s = if fd == 1 then s.out_pending else if fd == 2 then s.err_pending else []

-- `last` is the job with this status, no longer running. For a user interface that wants lines, the
-- text that a descriptor had pending, unless it is empty, has been told as its last line, less the
-- CR at its end, and nothing is pending any more; for another one the lines are as they were.
pub record IsEndOf (wants_lines : Bool) (status : ChildStatus) (value : ℕ) (job last : Job)
    : Type 0 where
  pub same : (last.index ≡ job.index) × (last.cmdline ≡ job.cmdline) × (last.pid ≡ job.pid)
  pub ended : last.is_running ≡ false
  pub result : (last.status ≡ status) × (last.status_value ≡ value)
  pub told :
      (fd : ℕ)
      → (new : List Bytes) × (texts_of fd last.lines.events ≡ texts_of fd job.lines.events ++ new)
        × AreStripped (if wants_lines then unended (pending_of fd job.lines) else []) new
  pub left :
      (fd : ℕ) → pending_of fd last.lines ≡ (if wants_lines then [] else pending_of fd job.lines)

end_job-told :
    (fd : ℕ) (s : LineState)
    → texts_of fd (flush_pending_lines true s).events
      ≡ texts_of fd s.events ++ map strip_cr (unended (pending_of fd s))
end_job-told zero s = flush_pending_lines-texts_of 0 s ∙ append-nil (texts_of 0 s.events ++ [])
end_job-told (suc zero) s = flush_pending_lines-texts_of 1 s ∙ append-nil _
end_job-told (suc (suc zero)) s =
    flush_pending_lines-texts_of 2 s
    ∙ ap (λ l. l ++ last_line s.err_pending) (append-nil (texts_of 2 s.events))
end_job-told (suc (suc (suc fd))) s =
    let not_out : (suc (suc (suc fd)) == 1) ≡ false = ground arith in
    let not_err : (suc (suc (suc fd)) == 2) ≡ false = ground arith in
    let out_other : (1 == suc (suc (suc fd))) ≡ false = ground arith in
    let err_other : (2 == suc (suc (suc fd))) ≡ false = ground arith in
    let both = flush_pending_lines-texts_of (suc (suc (suc fd))) s in
    rw (not_out, not_err)
      ((rw (out_other, err_other) at both)
        ∙ append-nil (texts_of (suc (suc (suc fd))) s.events ++ []))

flush_pending_lines-pending_of :
    (fd : ℕ) (s : LineState) → pending_of fd (flush_pending_lines true s) ≡ []
unfolding flush_pending_lines flush_line emit_line
flush_pending_lines-pending_of fd s = ground arith

pub end_job-IsEndOf :
    (wants_lines : Bool) (status : ChildStatus) (value : ℕ) (job : Job)
    → IsEndOf wants_lines status value job (end_job wants_lines status value job)
unfolding end_job flush_pending_lines
end_job-IsEndOf true status value job = record {
  same = (refl, refl, refl);
  ended = refl;
  result = (refl, refl);
  told = λ fd. (
    map strip_cr (unended (pending_of fd job.lines)),
    end_job-told fd job.lines,
    map-AreStripped (unended (pending_of fd job.lines)),
  );
  left = λ fd. flush_pending_lines-pending_of fd job.lines;
}
end_job-IsEndOf false status value job = record {
  same = (refl, refl, refl);
  ended = refl;
  result = (refl, refl);
  told = λ fd. ([], sym (append-nil _), none_left);
  left = λ fd. refl;
}
