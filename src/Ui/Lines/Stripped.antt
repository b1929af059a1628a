-- ===== src/Ui/Lines/Stripped.antt =====
-- The lines that `emit_line` tells, against the lines of the output.
use yapara_c.Prelude.{
  ℕ, false, List, [], ◌∷◌, ◌++◌, map, ◌≡◌, ◌≢◌, inl, inr, refl, ap, arith, ltb, ◌==◌, if◌then◌else◌,
  length, Bool-cases,
}
use yapara_c.Ui.Options.{Bytes}
use yapara_c.Ui.Lines.{strip_cr}

-- The text is the line less the CR at its end, where it ends in one, and the line itself elsewhere.
pub data IsStripped (line text : Bytes) : Type 0 where
  cr : line ≡ text ++ b'\r' ∷ [] → IsStripped line text
  same : text ≡ line → ((front : Bytes) → line ≢ front ++ b'\r' ∷ []) → IsStripped line text

pub data AreStripped : (lines texts : List Bytes) → Type 0 where
  none_left : AreStripped [] []
  line_and :
      {line text : Bytes} {lines texts : List Bytes}
      → IsStripped line text
      → AreStripped lines texts
      → AreStripped (line ∷ lines) (text ∷ texts)

nil-ne-snoc : (front : Bytes) → [] ≢ front ++ b'\r' ∷ []
nil-ne-snoc [] q = cc
nil-ne-snoc (x ∷ front) q = cc

one-ne-snoc : (c : ℕ) (front : Bytes) → (c == b'\r') ≡ false → c ∷ [] ≢ front ++ b'\r' ∷ []
one-ne-snoc c [] h q = ground arith
one-ne-snoc c (x ∷ front) h q = nil-ne-snoc front (cc)

cons-ne-snoc :
    (c d : ℕ) (line front : Bytes)
    → ((front : Bytes) → d ∷ line ≢ front ++ b'\r' ∷ [])
    → c ∷ d ∷ line ≢ front ++ b'\r' ∷ []
cons-ne-snoc c d line [] never q = cc
cons-ne-snoc c d line (x ∷ front) never q = never front (cc)

cons-IsStripped :
    (c d : ℕ) (line text : Bytes)
    → IsStripped (d ∷ line) text
    → IsStripped (c ∷ d ∷ line) (c ∷ text)
cons-IsStripped c d line text (cr q) = cr (ap (◌∷◌ c) q)
cons-IsStripped c d line text (same q never) =
    same (ap (◌∷◌ c) q) (λ front. cons-ne-snoc c d line front never)

strip_cr-IsStripped : (line : Bytes) → IsStripped line (strip_cr line)
unfolding strip_cr
strip_cr-IsStripped [] = same refl nil-ne-snoc
strip_cr-IsStripped (c ∷ []) = elim (Bool-cases (c == b'\r')) [
  | inl ends ↦ rw ends (cr (ground arith))
  | inr plain ↦ rw plain (same refl (λ front. one-ne-snoc c front plain))
]
strip_cr-IsStripped (c ∷ d ∷ line) =
    cons-IsStripped c d line (strip_cr (d ∷ line)) (strip_cr-IsStripped (d ∷ line))

pub map-AreStripped : (lines : List Bytes) → AreStripped lines (map strip_cr lines)
map-AreStripped [] = none_left
map-AreStripped (line ∷ lines) = line_and (strip_cr-IsStripped line) (map-AreStripped lines)

-- A line with no newline behind it counts unless it is empty.
abbrev pub unended : Bytes → List Bytes
unended rest = if ltb 0 (length rest) then rest ∷ [] else []
