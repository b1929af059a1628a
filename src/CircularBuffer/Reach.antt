-- ===== src/CircularBuffer/Reach.antt =====
-- What holds of every circular buffer that `yc_circular_buffer_new` and `yc_circular_buffer_add`
-- make.
use yapara_c.Prelude.{
  ℕ, List, [], ◌∷◌, ◌++◌, Option, some, ◌≡◌, refl, ap, sym, ◌∙◌, subst, append_assoc, Bool-cases,
  inl, inr,
}
use yapara_c.Prelude.Loop.{Result, ok}
use yapara_c.CircularBuffer.{Bytes, CircularBuffer, NewOptions, Storage, new, add, kept_length}
use yapara_c.CircularBuffer.Content.{Entry, Holds}
use yapara_c.CircularBuffer.Room.{is_full, lines_kept}
use yapara_c.CircularBuffer.Refine.{IsAllocated, line_of, add-Holds, new-Holds}

-- The buffers that calls make, with all the lines that were added.
pub data Reachable (o : NewOptions) (storage : Storage) : List Entry → CircularBuffer → Type 0 where
  created : {r : CircularBuffer} → new o storage ≡ some r → Reachable o storage [] r
  grown :
      {all : List Entry} {r r' : CircularBuffer} {n_evicted : ℕ} (text : Bytes)
      (given : Option Bytes)
      → Reachable o storage all r
      → add r text given ≡ ok (n_evicted, r')
      → Reachable o storage (all ++ line_of r text given ∷ []) r'

-- The lines that stay are the last ones.
lines_kept-last :
    (B M len : ℕ) (ls : List Entry)
    → (dropped : List Entry) × (dropped ++ lines_kept B M len ls ≡ ls)
lines_kept-last B M len [] = ([], refl)
lines_kept-last B M len (l ∷ ls) = elim (Bool-cases (is_full B M len (l ∷ ls))) [
  | inl full ↦
      let (dropped, same) = lines_kept-last B M len ls in rw full (l ∷ dropped, ap (◌∷◌ l) same)
  | inr room ↦ rw room ([], refl)
]

some-inj : {A : Type 0} {a b : A} → some a ≡ some b → a ≡ b
some-inj h = cc

-- Two descriptions of one result.
ok-inj : {E A : Type 0} {a b : A} (x : Result E A) → x ≡ ok a → x ≡ ok b → a ≡ b
ok-inj x h k = cc

module _ (o : NewOptions) (storage : Storage) (allocated : IsAllocated o storage) where
  -- With storage of the sizes asked for, and a limit on a line below the size of the buffer: every
  -- buffer that calls of `yc_circular_buffer_add` make of a new one holds the last of the lines that
  -- were added.
  pub Reachable-Holds :
      {all : List Entry} {r : CircularBuffer}
      → Reachable o storage all r
      → (older : List Entry) × (last : List Entry) × (older ++ last ≡ all) × Holds r last
  Reachable-Holds (created made) =
      let (r1, made1, holds) = new-Holds o storage allocated in
      ([], [], refl, subst (λ x. Holds x []) (some-inj (sym made1 ∙ made)) holds)
  Reachable-Holds (grown {all} {r} {r'} {n_evicted} text given reached added) =
      let (older, last, all_lines, holds) = Reachable-Holds reached in
      let (r1, added1, holds1) = add-Holds r text given last holds in
      let left = lines_kept r.buffer_size r.max_lines (kept_length r text) last in
      let new_line = line_of r text given ∷ [] in
      let (dropped, same) = lines_kept-last r.buffer_size r.max_lines (kept_length r text) last in
      (
        older ++ dropped,
        left ++ new_line,
        append_assoc older dropped (left ++ new_line)
            ∙ ap (λ l. older ++ l) (sym (append_assoc dropped left new_line))
            ∙ ap (λ l. older ++ (l ++ new_line)) same
            ∙ sym (append_assoc older last new_line)
            ∙ ap (λ l. l ++ new_line) all_lines,
        subst (λ x. Holds x (left ++ new_line))
            (ap (λ p. p.1) (ok-inj (add r text given) added1 added)) holds1,
      )

  -- On every buffer that calls make of a new one, with storage of the sizes asked for and a limit on a
  -- line below the size of the buffer, `yc_circular_buffer_add` of any text returns: no assertion
  -- fails, and no loop goes on for ever.
  pub Reachable-add :
      {all : List Entry} {r : CircularBuffer} (text : Bytes) (given : Option Bytes)
      → Reachable o storage all r
      → (n_evicted : ℕ) × (r' : CircularBuffer) × (add r text given ≡ ok (n_evicted, r'))
        × Reachable o storage (all ++ line_of r text given ∷ []) r'
  Reachable-add {all} {r} text given reached =
      let (older, last, all_lines, holds) = Reachable-Holds reached in
      let (r', added, holds') = add-Holds r text given last holds in
      (_, r', added, grown text given reached added)
