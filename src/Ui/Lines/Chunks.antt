-- ===== src/Ui/Lines/Chunks.antt =====
-- The lines of a child's output, whatever the chunks are in which it is read.
use yapara_c.Prelude.{
  ℕ, zero, suc, true, false, List, [], ◌∷◌, ◌++◌, map, ◌≡◌, refl, ap, sym, ◌∙◌, append-nil,
  append_assoc, arith, ◌==◌, if◌then◌else◌, subst,
}
use yapara_c.Ui.Options.{Bytes}
use yapara_c.Ui.Lines.{
  LineEvent, LineState, strip_cr, emit_line, deliver_lines, flush_line, flush_pending_lines,
}
use yapara_c.Ui.Lines.Stripped.{AreStripped, map-AreStripped, unended}
use yapara_c.Ui.Lines.Scan.{
  NoNewline, unlines, IsSplit, texts_of, AllNoNewline-append, unlines-append, map-append,
  texts_of-emitted, Scans, scan_lines-Scans,
}

-- A chunk of output: the descriptor, and the bytes.
abbrev pub Chunk : Type 0
Chunk = ℕ × Bytes

-- `deliver_lines` for each chunk, in the order of arrival.
abbrev pub deliver_all : List Chunk → LineState → LineState
deliver_all [] s = s
deliver_all ((child_fd, text) ∷ chunks) s = deliver_all chunks (deliver_lines child_fd text s)

-- All that a descriptor has written.
abbrev pub text_of : ℕ → List Chunk → Bytes
text_of fd [] = []
text_of fd ((child_fd, text) ∷ chunks) = (if child_fd == fd then text else []) ++ text_of fd chunks

-- The lines that were told of a descriptor are those of this text, less their CRs, and what has
-- begun is its rest.
pub record IsScanned (fd : ℕ) (text pending : Bytes) (events : List LineEvent) : Type 0 where
  pub lines : List Bytes
  pub split : IsSplit text lines pending
  pub told : texts_of fd events ≡ map strip_cr lines

IsScanned-Scans :
    (fd : ℕ) (before text pending : Bytes) (s : LineState) (result : Bytes × LineState)
    → IsScanned fd before pending s.events
    → Scans fd [] (pending ++ text) s result
    → IsScanned fd (before ++ text) result.0 result.1.events
IsScanned-Scans fd before text pending s result h scan = record {
  lines = h.lines ++ scan.lines;
  split = record {
    whole =
        ap (λ t. t ++ text) h.split.whole
        ∙ append_assoc (unlines h.lines) pending text
        ∙ ap (λ t. unlines h.lines ++ t) scan.split.whole
        ∙ sym (append_assoc (unlines h.lines) (unlines scan.lines) result.0)
        ∙ ap (λ t. t ++ result.0) (sym (unlines-append h.lines scan.lines));
    lines_end = AllNoNewline-append h.lines scan.lines h.split.lines_end scan.split.lines_end;
    rest_open = scan.split.rest_open;
  };
  told =
      scan.told
      ∙ ap (λ l. l ++ map strip_cr scan.lines) h.told
      ∙ sym (map-append strip_cr h.lines scan.lines);
}

IsScanned-other :
    (fd : ℕ) (before pending kept : Bytes) (old new : List LineEvent)
    → kept ≡ pending
    → texts_of fd new ≡ texts_of fd old
    → IsScanned fd before pending old
    → IsScanned fd (before ++ []) kept new
IsScanned-other fd before pending kept old new kept_same same h = record {
  lines = h.lines;
  split = record {
    whole = append-nil before ∙ h.split.whole ∙ ap (λ t. unlines h.lines ++ t) (sym kept_same);
    lines_end = h.split.lines_end;
    rest_open = subst NoNewline (sym kept_same) h.split.rest_open;
  };
  told = same ∙ h.told;
}

-- Both descriptors of a job, after these chunks.
abbrev pub AreScanned : Bytes → Bytes → LineState → Type 0
AreScanned out err s =
    IsScanned 1 out s.out_pending s.events × IsScanned 2 err s.err_pending s.events

deliver_lines-AreScanned :
    (fd : ℕ) (text out err : Bytes) (s : LineState)
    → AreScanned out err s
    → AreScanned
        (out ++ (if fd == 1 then text else []))
        (err ++ (if fd == 2 then text else []))
        (deliver_lines fd text s)
unfolding deliver_lines
deliver_lines-AreScanned zero text out err s (h, k) =
    (IsScanned-other 1 out _ _ _ _ refl refl h, IsScanned-other 2 err _ _ _ _ refl refl k)
deliver_lines-AreScanned (suc zero) text out err s (h, k) =
    let scan = scan_lines-Scans 1 (s.out_pending ++ text) [] s tt in
    (
      IsScanned-Scans 1 out text s.out_pending s _ h scan,
      IsScanned-other 2 err _ _ _ _ scan.err_kept (scan.others 2 (omega arith)) k,
    )
deliver_lines-AreScanned (suc (suc zero)) text out err s (h, k) =
    let scan = scan_lines-Scans 2 (s.err_pending ++ text) [] s tt in
    (
      IsScanned-other 1 out _ _ _ _ scan.out_kept (scan.others 1 (omega arith)) h,
      IsScanned-Scans 2 err text s.err_pending s _ k scan,
    )
deliver_lines-AreScanned (suc (suc (suc fd))) text out err s (h, k) =
    let not_out : (suc (suc (suc fd)) == 1) ≡ false = ground arith in
    let not_err : (suc (suc (suc fd)) == 2) ≡ false = ground arith in
    rw (not_out, not_err)
      (IsScanned-other 1 out _ _ _ _ refl refl h, IsScanned-other 2 err _ _ _ _ refl refl k)

deliver_all-AreScanned :
    (chunks : List Chunk) (out err : Bytes) (s : LineState)
    → AreScanned out err s
    → AreScanned (out ++ text_of 1 chunks) (err ++ text_of 2 chunks) (deliver_all chunks s)
deliver_all-AreScanned [] out err s (h, k) =
    (IsScanned-other 1 out _ _ _ _ refl refl h, IsScanned-other 2 err _ _ _ _ refl refl k)
deliver_all-AreScanned ((fd, text) ∷ chunks) out err s told =
    let h = deliver_all-AreScanned chunks _ _ _ (deliver_lines-AreScanned fd text out err s told) in
    (
      subst
          (λ t.
            IsScanned 1 t (deliver_all chunks (deliver_lines fd text s)).out_pending
              (deliver_all chunks (deliver_lines fd text s)).events)
          (append_assoc out (if fd == 1 then text else []) (text_of 1 chunks)) h.0,
      subst
          (λ t.
            IsScanned 2 t (deliver_all chunks (deliver_lines fd text s)).err_pending
              (deliver_all chunks (deliver_lines fd text s)).events)
          (append_assoc err (if fd == 2 then text else []) (text_of 2 chunks)) h.1,
    )

abbrev pub no_lines : LineState
no_lines = record { out_pending = []; err_pending = []; events = [] }

-- The line that is made of text with no newline behind it, if there is any.
abbrev pub last_line : Bytes → List Bytes
last_line rest = map strip_cr (unended rest)

flush_line-texts_of :
    (fd other : ℕ) (line : Bytes) (s : LineState)
    → texts_of other (flush_line fd line s).events
      ≡ texts_of other s.events ++ (if fd == other then last_line line else [])
unfolding flush_line emit_line
flush_line-texts_of fd other line s =
    let e : LineEvent = record { child_fd = fd; text = strip_cr line } in
    ground (arith, texts_of-emitted other s.events e, append-nil (texts_of other s.events))

pub flush_pending_lines-texts_of :
    (fd : ℕ) (s : LineState)
    → texts_of fd (flush_pending_lines true s).events
      ≡ (texts_of fd s.events ++ (if 1 == fd then last_line s.out_pending else []))
        ++ (if 2 == fd then last_line s.err_pending else [])
unfolding flush_pending_lines
flush_pending_lines-texts_of fd s =
    let s1 : LineState = record s { out_pending = [] } in
    let s2 = flush_line 1 s.out_pending s1 in
    let s3 : LineState = record s2 { err_pending = [] } in
    flush_line-texts_of 2 fd s.err_pending s3
    ∙ ap (λ l. l ++ (if 2 == fd then last_line s.err_pending else []))
        (flush_line-texts_of 1 fd s.out_pending s1)

-- The lines told of a descriptor are those of this text, each less the CR at its end, and what is
-- pending is its rest.
pub record IsTold (fd : ℕ) (text pending : Bytes) (events : List LineEvent) : Type 0 where
  pub lines : List Bytes
  pub split : IsSplit text lines pending
  pub told : AreStripped lines (texts_of fd events)

-- The same, with what stands behind the last newline as one more line, unless it is empty.
pub record IsToldWhole (fd : ℕ) (text : Bytes) (events : List LineEvent) : Type 0 where
  pub lines : List Bytes
  pub rest : Bytes
  pub split : IsSplit text lines rest
  pub told : AreStripped (lines ++ unended rest) (texts_of fd events)

-- Both descriptors of a job.
abbrev pub AreTold : Bytes → Bytes → LineState → Type 0
AreTold out err s = IsTold 1 out s.out_pending s.events × IsTold 2 err s.err_pending s.events

IsScanned-IsTold :
    (fd : ℕ) (text pending : Bytes) (events : List LineEvent)
    → IsScanned fd text pending events
    → IsTold fd text pending events
IsScanned-IsTold fd text pending events h = record {
  lines = h.lines;
  split = h.split;
  told = subst (AreStripped h.lines) (sym h.told) (map-AreStripped h.lines);
}

IsScanned-IsToldWhole :
    (fd : ℕ) (text pending : Bytes) (events flushed : List LineEvent)
    → texts_of fd flushed ≡ texts_of fd events ++ last_line pending
    → IsScanned fd text pending events
    → IsToldWhole fd text flushed
IsScanned-IsToldWhole fd text pending events flushed q h = record {
  lines = h.lines;
  rest = pending;
  split = h.split;
  told =
      subst (AreStripped (h.lines ++ unended pending))
        (map-append strip_cr h.lines (unended pending)
          ∙ sym (q ∙ ap (λ l. l ++ last_line pending) h.told))
        (map-AreStripped (h.lines ++ unended pending));
}

-- However the output of a job's stdout and stderr is cut into chunks, and in whatever order the
-- chunks of the two arrive: after `deliver_lines` for each chunk, from a job with nothing pending,
-- the lines told of stdout are the lines of all that stdout wrote, in their order and each less the
-- CR at its end, and what stdout has pending is the text behind its last newline; the same holds
-- of stderr; and once `flush_pending_lines` has run for a user interface that wants lines, the text
-- behind the last newline, unless it is empty, has been told of each as its last line, less the CR
-- at its end.
pub deliver_all-AreTold :
    (chunks : List Chunk)
    → AreTold (text_of 1 chunks) (text_of 2 chunks) (deliver_all chunks no_lines)
      × IsToldWhole 1
          (text_of 1 chunks)
          (flush_pending_lines true (deliver_all chunks no_lines)).events
      × IsToldWhole 2
          (text_of 2 chunks)
          (flush_pending_lines true (deliver_all chunks no_lines)).events
deliver_all-AreTold chunks =
    let s = deliver_all chunks no_lines in
    let start1 : IsScanned 1 [] [] [] = record {
      lines = [];
      split = record { whole = refl; lines_end = tt; rest_open = tt };
      told = refl;
    } in
    let start2 : IsScanned 2 [] [] [] = record {
      lines = [];
      split = record { whole = refl; lines_end = tt; rest_open = tt };
      told = refl;
    } in
    let (out, err) = deliver_all-AreScanned chunks [] [] no_lines (start1, start2) in
    (
      (IsScanned-IsTold 1 _ _ _ out, IsScanned-IsTold 2 _ _ _ err),
      IsScanned-IsToldWhole 1 _ s.out_pending s.events _
          (flush_pending_lines-texts_of 1 s ∙ append-nil _) out,
      IsScanned-IsToldWhole 2 _ s.err_pending s.events _
          (flush_pending_lines-texts_of 2 s ∙ ap (λ l. l ++ last_line s.err_pending) (append-nil _))
          err,
    )
