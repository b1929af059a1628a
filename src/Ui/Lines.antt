-- ===== src/Ui/Lines.antt =====
-- The reassembly of lines from the chunks that are read from a child.
pub mod Scan
pub mod Stripped
pub mod Chunks
use yapara_c.Prelude.{
  ℕ, zero, suc, ◌+◌, ◌-◌, Bool, true, false, ◌&&◌, ◌||◌, List, [], ◌∷◌, ◌++◌, Option, none, some,
  ltb, leb, ◌==◌, if◌then◌else◌, length, take,
}
use yapara_c.Ui.Options.{Bytes}

-- A line that is told to the user interface and the recorders: the descriptor, and the text.
pub record LineEvent : Type 0 where
  pub child_fd : ℕ
  pub text : Bytes

-- The partial lines of stdout and stderr, `job->pending`, and the lines told so far. A job without
-- the array has two empty partial lines.
pub record LineState : Type 0 where
  pub out_pending : Bytes
  pub err_pending : Bytes
  pub events : List LineEvent

-- The CR at the end of a line is dropped.
unfoldable pub strip_cr : Bytes → Bytes
strip_cr [] = []
strip_cr (c ∷ []) = if c == b'\r' then [] else c ∷ []
strip_cr (c ∷ d ∷ line) = c ∷ strip_cr (d ∷ line)

-- `emit_line`
unfoldable pub emit_line : ℕ → Bytes → LineState → LineState
emit_line child_fd line s = record s {
  events = s.events ++ record { child_fd = child_fd; text = strip_cr line } ∷ [];
}

-- The loop of `deliver_lines` over the rest of the buffer; the line that has begun is at hand. The
-- result is what stays in the buffer.
unfoldable pub scan_lines : ℕ → Bytes → Bytes → LineState → Bytes × LineState
scan_lines child_fd line [] s = (line, s)
scan_lines child_fd line (c ∷ rest) s =
    let is_end = c == b'\n' in
    scan_lines child_fd (if is_end then [] else line ++ c ∷ []) rest
      (if is_end then emit_line child_fd line s else s)

-- `deliver_lines`
unfoldable pub deliver_lines : ℕ → Bytes → LineState → LineState
deliver_lines child_fd text s =
    let (out_left, out_state) = scan_lines child_fd [] (s.out_pending ++ text) s in
    let (err_left, err_state) = scan_lines child_fd [] (s.err_pending ++ text) s in
    if child_fd == 1
    then record out_state { out_pending = out_left }
    else if child_fd == 2
    then record err_state { err_pending = err_left }
    else s

unfoldable pub flush_line : ℕ → Bytes → LineState → LineState
flush_line child_fd line s = if ltb 0 (length line) then emit_line child_fd line s else s

-- `flush_pending_lines`
unfoldable pub flush_pending_lines : (wants_lines : Bool) → LineState → LineState
flush_pending_lines wants_lines s =
    let out_flushed = flush_line 1 s.out_pending (record s { out_pending = [] }) in
    let both = flush_line 2 s.err_pending (record out_flushed { err_pending = [] }) in
    if wants_lines then both else s
