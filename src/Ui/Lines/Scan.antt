-- ===== src/Ui/Lines/Scan.antt =====
-- The lines that one scan of a buffer tells.
use yapara_c.Prelude.{
  ℕ, List, [], ◌∷◌, ◌++◌, map, ◌≡◌, ◌≢◌, inl, inr, refl, ap, sym, ◌∙◌, append-nil, append_assoc,
  arith, ◌==◌, if◌then◌else◌, Bool-cases,
}
use yapara_c.Ui.Options.{Bytes}
use yapara_c.Ui.Lines.{LineEvent, LineState, strip_cr, emit_line, scan_lines}

abbrev pub NoNewline : Bytes → Type 0
NoNewline [] = Unit
NoNewline (c ∷ line) = (c ≢ b'\n') × NoNewline line

abbrev pub AllNoNewline : List Bytes → Type 0
AllNoNewline [] = Unit
AllNoNewline (line ∷ lines) = NoNewline line × AllNoNewline lines

-- Lines with a newline behind each.
abbrev pub unlines : List Bytes → Bytes
unlines [] = []
unlines (line ∷ lines) = line ++ b'\n' ∷ unlines lines

-- A text is these lines, and the rest is the beginning of one more.
pub record IsSplit (text : Bytes) (lines : List Bytes) (rest : Bytes) : Type 0 where
  pub whole : text ≡ unlines lines ++ rest
  pub lines_end : AllNoNewline lines
  pub rest_open : NoNewline rest

-- The lines that were told of a descriptor.
abbrev pub texts_of : ℕ → List LineEvent → List Bytes
texts_of fd [] = []
texts_of fd (e ∷ events) =
    if e.child_fd == fd then e.text ∷ texts_of fd events else texts_of fd events

NoNewline-append : (xs ys : Bytes) → NoNewline xs → NoNewline ys → NoNewline (xs ++ ys)
NoNewline-append [] ys h k = k
NoNewline-append (x ∷ xs) ys h k = (h.0, NoNewline-append xs ys h.1 k)

pub AllNoNewline-append :
    (xs ys : List Bytes) → AllNoNewline xs → AllNoNewline ys → AllNoNewline (xs ++ ys)
AllNoNewline-append [] ys h k = k
AllNoNewline-append (x ∷ xs) ys h k = (h.0, AllNoNewline-append xs ys h.1 k)

pub unlines-append : (xs ys : List Bytes) → unlines (xs ++ ys) ≡ unlines xs ++ unlines ys
unlines-append [] ys = refl
unlines-append (x ∷ xs) ys =
    ap (λ l. x ++ b'\n' ∷ l) (unlines-append xs ys)
    ∙ sym (append_assoc x (b'\n' ∷ unlines xs) (unlines ys))

pub map-append : (f : Bytes → Bytes) (xs ys : List Bytes) → map f (xs ++ ys) ≡ map f xs ++ map f ys
map-append f [] ys = refl
map-append f (x ∷ xs) ys = ap (◌∷◌ (f x)) (map-append f xs ys)

pub texts_of-emitted :
    (fd : ℕ) (events : List LineEvent) (e : LineEvent)
    → texts_of fd (events ++ e ∷ [])
      ≡ texts_of fd events ++ (if e.child_fd == fd then e.text ∷ [] else [])
texts_of-emitted fd [] e = ground arith
texts_of-emitted fd (x ∷ events) e = ground (arith, texts_of-emitted fd events e)

-- What the scan tells, from a line that has begun.
pub record Scans (fd : ℕ) (line rest : Bytes) (s : LineState) (result : Bytes × LineState)
    : Type 0 where
  pub lines : List Bytes
  pub split : IsSplit (line ++ rest) lines result.0
  pub told : texts_of fd result.1.events ≡ texts_of fd s.events ++ map strip_cr lines
  pub others : (other : ℕ) → other ≢ fd → texts_of other result.1.events ≡ texts_of other s.events
  pub out_kept : result.1.out_pending ≡ s.out_pending
  pub err_kept : result.1.err_pending ≡ s.err_pending

Scans-newline :
    (fd : ℕ) (line rest : Bytes) (s : LineState) (result : Bytes × LineState)
    → NoNewline line
    → Scans fd [] rest (emit_line fd line s) result
    → Scans fd line (b'\n' ∷ rest) s result
unfolding emit_line
Scans-newline fd line rest s result open_line h =
    let e : LineEvent = record { child_fd = fd; text = strip_cr line } in
    record {
      lines = line ∷ h.lines;
      split = record {
        whole =
            ap (λ l. line ++ b'\n' ∷ l) h.split.whole
            ∙ sym (append_assoc line (b'\n' ∷ unlines h.lines) result.0);
        lines_end = (open_line, h.split.lines_end);
        rest_open = h.split.rest_open;
      };
      told =
          h.told
          ∙ ap (λ l. l ++ map strip_cr h.lines) (texts_of-emitted fd s.events e ∙ ground arith)
          ∙ append_assoc (texts_of fd s.events) (strip_cr line ∷ []) (map strip_cr h.lines);
      others = λ other ne.
          h.others other ne
          ∙ texts_of-emitted other s.events e
          ∙ ground (arith, append-nil (texts_of other s.events));
      out_kept = h.out_kept;
      err_kept = h.err_kept;
    }

pub scan_lines-Scans :
    (fd : ℕ) (rest line : Bytes) (s : LineState)
    → NoNewline line
    → Scans fd line rest s (scan_lines fd line rest s)
unfolding scan_lines
scan_lines-Scans fd [] line s open_line = record {
  lines = [];
  split = record { whole = append-nil line; lines_end = tt; rest_open = open_line };
  told = sym (append-nil (texts_of fd s.events));
  others = λ other ne. refl;
  out_kept = refl;
  err_kept = refl;
}
scan_lines-Scans fd (c ∷ rest) line s open_line = elim (Bool-cases (c == b'\n')) [
  | inl newline ↦
      let e : c ≡ b'\n' = ground arith in
      rw (newline, e)
        (Scans-newline fd line rest s _ open_line
          (scan_lines-Scans fd rest [] (emit_line fd line s) tt))
  | inr other ↦
      let h =
        scan_lines-Scans fd rest (line ++ c ∷ []) s
          (NoNewline-append line (c ∷ []) open_line (ground arith, tt)) in
      rw other (record {
        lines = h.lines;
        split = record {
          whole = sym (append_assoc line (c ∷ []) rest) ∙ h.split.whole;
          lines_end = h.split.lines_end;
          rest_open = h.split.rest_open;
        };
        told = h.told;
        others = h.others;
        out_kept = h.out_kept;
        err_kept = h.err_kept;
      })
]
