-- ===== src/Term/Frame/Repaint.antt =====
-- What `yc_term_end_frame` sends, as commands to a terminal.
use yapara_c.Prelude.{
  is_same_eq, is_same_self, ℕ, zero, suc, ◌+◌, ◌^◌, ◌≤◌, ◌<◌, true, false, List, [], ◌∷◌, ◌++◌, ◌≡◌,
  ◌≢◌, refl, ap, sym, subst, ◌∙◌, append_assoc, length, set, get_or, arith, length-append,
  Bool-cases, inl, inr,
}
use yapara_c.Term.Utf8.{Bytes}
use yapara_c.Term.Rows.{Row, Screen}
use yapara_c.Term.Frame.{rows_differ, update, end_rows, end_frame}
use yapara_c.Term.Frame.Terminal.{
  Terminal, between, replay, has_erase, replay-append, replay-update,
}

nil_of_length : (a : Bytes) → length a ≡ 0 → a ≡ []
nil_of_length [] h = refl
nil_of_length (c ∷ a) h = absurd (omega arith)

pub rows_differ-same : (a b : Row) → rows_differ a b ≡ false → a.bytes ≡ b.bytes
unfolding rows_differ
rows_differ-same a b h =
    ground (arith, is_same_eq a.bytes b.bytes, nil_of_length a.bytes, nil_of_length b.bytes)

pub rows_differ_self : (a b : Row) → a.bytes ≡ b.bytes → rows_differ a b ≡ false
unfolding rows_differ
rows_differ_self a b h = rw h (ground (arith, is_same_self b.bytes))

-- A row, and what it is to show.
abbrev pub Command : Type 0
Command = ℕ × Bytes

-- The bytes of some commands.
abbrev pub render : List Command → Bytes
render [] = []
render ((row, bytes) ∷ commands) = update row bytes ++ render commands

-- What rows show.
abbrev pub texts : ℕ → List Row → List Bytes
texts zero rows = []
texts (suc n) [] = []
texts (suc n) (r ∷ rows) = r.bytes ∷ texts n rows

-- Every command is for a row that shows something else.
abbrev pub AllChange : List Command → List Bytes → Type 0
AllChange [] rows = Unit
AllChange ((row, bytes) ∷ commands) rows = (get_or rows row [] ≢ bytes) × AllChange commands rows

set-length :
    (xs : List Bytes) (o b : Bytes) (ys : List Bytes)
    → set (xs ++ o ∷ ys) (length xs) b ≡ xs ++ b ∷ ys
set-length [] o b ys = refl
set-length (x ∷ xs) o b ys = ap (◌∷◌ x) (set-length xs o b ys)

get_or-length :
    (xs : List Bytes) (o : Bytes) (ys : List Bytes) → get_or (xs ++ o ∷ ys) (length xs) [] ≡ o
get_or-length [] o ys = refl
get_or-length (x ∷ xs) o ys = get_or-length xs o ys

-- What a run of the loop tells, behind rows that it has passed.
record Repaints (n : ℕ) (old : List Bytes) (back front : List Row) (result : ℕ × Bytes × List Row)
    : Type 0 where
  commands : List Command
  sent : result.1 ≡ render commands
  counted : result.0 ≡ length commands
  shown : texts n result.2 ≡ texts n back
  changed : AllChange commands (old ++ texts n front)

snoc : (xs : List Bytes) (o : Bytes) (ys : List Bytes) → (xs ++ o ∷ []) ++ ys ≡ xs ++ o ∷ ys
snoc xs o ys = append_assoc xs (o ∷ []) ys

set-at :
    (xs : List Bytes) (row : ℕ) (o b : Bytes) (ys : List Bytes)
    → length xs ≡ row
    → set (xs ++ o ∷ ys) row b ≡ (xs ++ b ∷ []) ++ ys
set-at xs row o b ys e = rw (← e) (set-length xs o b ys ∙ sym (snoc xs b ys))

module _ (n row : ℕ) (b f : Row) (back front : List Row) (old : List Bytes)
    (there : length old ≡ row)
    (ih : Repaints n (old ++ f.bytes ∷ []) back front (end_rows n (row + 1) back front)) where
  Repaints-changed :
      rows_differ b f ≡ true
      → Repaints (suc n) old (b ∷ back) (f ∷ front) (end_rows (suc n) row (b ∷ back) (f ∷ front))
  unfolding end_rows
  Repaints-changed d =
      let differ : get_or (old ++ f.bytes ∷ texts n front) row [] ≢ b.bytes = λ e.
        let same : f.bytes ≡ b.bytes =
          sym (get_or-length old f.bytes (texts n front))
          ∙ ap (λ i. get_or (old ++ f.bytes ∷ texts n front) i []) there
          ∙ e in
        cc (d, rows_differ_self b f (sym same)) in
      rw d (record {
        commands = (row, b.bytes) ∷ ih.commands;
        sent = ap (λ l. update row b.bytes ++ l) ih.sent;
        counted = omega (arith, ih.counted);
        shown = ap (◌∷◌ b.bytes) ih.shown;
        changed =
            (differ, subst (AllChange ih.commands) (snoc old f.bytes (texts n front)) ih.changed);
      })

  Repaints-same :
      rows_differ b f ≡ false
      → Repaints (suc n) old (b ∷ back) (f ∷ front) (end_rows (suc n) row (b ∷ back) (f ∷ front))
  unfolding end_rows
  Repaints-same d =
      let same = rows_differ-same b f d in
      rw d (record {
        commands = ih.commands;
        sent = ih.sent;
        counted = ih.counted;
        shown =
            ap (λ l. l ∷ texts n (end_rows n (row + 1) back front).2) (sym same)
            ∙ ap (◌∷◌ b.bytes) ih.shown;
        changed = subst (AllChange ih.commands) (snoc old f.bytes (texts n front)) ih.changed;
      })

end_rows-Repaints :
    (n row : ℕ) (back front : List Row) (old : List Bytes)
    → n ≤ length back
    → n ≤ length front
    → length old ≡ row
    → Repaints n old back front (end_rows n row back front)
end_rows-Repaints zero row back front old h k there =
    unfold end_rows in
    (record { commands = []; sent = refl; counted = refl; shown = refl; changed = tt })
end_rows-Repaints (suc n) row [] front old h k there = absurd (omega arith)
end_rows-Repaints (suc n) row (b ∷ back) [] old h k there = absurd (omega arith)
end_rows-Repaints (suc n) row (b ∷ back) (f ∷ front) old h k there =
    let ih =
      end_rows-Repaints n (row + 1) back front (old ++ f.bytes ∷ []) (omega arith) (omega arith)
        (omega (arith, length-append old (f.bytes ∷ []))) in
    elim (Bool-cases (rows_differ b f)) [
      | inl d ↦ Repaints-changed n row b f back front old there ih d
      | inr d ↦ Repaints-same n row b f back front old there ih d
    ]

-- No row of the frame ends the row itself.
abbrev pub AllPlain : List Bytes → Type 0
AllPlain [] = Unit
AllPlain (bytes ∷ rows) = (has_erase bytes ≡ false) × AllPlain rows

end_rows-replay :
    (n row : ℕ) (back front : List Row) (done : List Bytes)
    → n ≤ length back
    → n ≤ length front
    → length done ≡ row
    → row + n < 2 ^ 32
    → AllPlain (texts n back)
    → replay
        (end_rows n row back front).1
        (record { phase = between; rows = done ++ texts n front })
      ≡ record { phase = between; rows = done ++ texts n back }
unfolding end_rows
end_rows-replay zero row back front done h k here small plain = refl
end_rows-replay (suc n) row [] front done h k here small plain = absurd (omega arith)
end_rows-replay (suc n) row (b ∷ back) [] done h k here small plain = absurd (omega arith)
end_rows-replay (suc n) row (b ∷ back) (f ∷ front) done h k here small plain =
    let ih =
      end_rows-replay n (row + 1) back front (done ++ b.bytes ∷ []) (omega arith) (omega arith)
        (omega (arith, length-append done (b.bytes ∷ []))) (omega arith) plain.1 in
    let shows : List Bytes → Terminal = λ l. record { phase = between; rows = l } in
    let after = ih ∙ ap shows (snoc done b.bytes (texts n back)) in
    let rest = (end_rows n (row + 1) back front).1 in
    elim (Bool-cases (rows_differ b f)) [
      | inl d ↦ rw d (
          replay-append (update row b.bytes) rest _
          ∙ ap (replay rest) (
              replay-update row b.bytes (done ++ f.bytes ∷ texts n front) (omega arith) plain.0
              ∙ ap shows (set-at done row f.bytes b.bytes (texts n front) here))
          ∙ after)
      | inr d ↦ rw d (
          ap (λ l. replay rest (shows l))
            (ap (λ o. done ++ o ∷ texts n front) (sym (rows_differ-same b f d))
              ∙ sym (snoc done b.bytes (texts n front)))
          ∙ after)
    ]

-- A screen whose buffers have a row for each line of the terminal.
pub record IsAllocated (t : Screen) : Type 0 where
  pub back : t.height ≤ length t.back
  pub front : t.height ≤ length t.front

-- For a screen of less than 2 ^ 32 lines whose rows hold no `ESC [ K`: what `yc_term_end_frame`
-- sends is some commands, as many as it counts, each for a row that shows something else. A
-- terminal that shows the front buffer, and reads these bytes one by one, shows the new frame in
-- every row at the end, is inside no sequence, and the front buffer then shows the new frame too.
pub end_frame-Repaints :
    (t : Screen)
    → IsAllocated t
    → t.height < 2 ^ 32
    → AllPlain (texts t.height t.back)
    → (commands : List Command) × ((end_frame t).out ≡ render commands)
      × ((end_frame t).rows_written ≡ length commands)
      × AllChange commands (texts t.height t.front)
      × (replay (end_frame t).out (record { phase = between; rows = texts t.height t.front })
          ≡ record { phase = between; rows = texts t.height t.back })
      × (texts t.height (end_frame t).front ≡ texts t.height t.back)
unfolding end_frame
end_frame-Repaints t a small plain =
    let r = end_rows-Repaints t.height 0 t.back t.front [] a.back a.front refl in
    let seen =
      end_rows-replay t.height 0 t.back t.front [] a.back a.front refl (omega arith) plain in
    (r.commands, r.sent, r.counted, r.changed, seen, r.shown)
