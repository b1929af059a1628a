-- ===== src/Term/Rows/Safe.antt =====
-- Which bytes `yc_term_row_puts` can put into a row.
use yapara_c.Prelude.{
  get_or-set_same, ℕ, ◌+◌, ◌^◌, ◌≤◌, ◌<◌, [], ◌∷◌, ◌++◌, ◌≡◌, ◌≢◌, ap, length, arith,
}
use yapara_c.Prelude.Loop.{ok}
use yapara_c.Term.Utf8.{Bytes}
use yapara_c.Term.Utf8.Encode.{encode}
use yapara_c.Term.Rows.{Row, Screen, row_puts, row_at, put_row}
use yapara_c.Term.Rows.Clip.{IsPrintable, Draws, nothing, shown, control, stray, row_puts_lem}

-- A byte that is no control character, ESC included.
abbrev pub IsSafeByte : ℕ → Type 0
IsSafeByte c = (0x20 ≤ c) × (c ≢ 0x7f)

abbrev pub AreSafe : Bytes → Type 0
AreSafe [] = Unit
AreSafe (c ∷ bytes) = IsSafeByte c × AreSafe bytes

AreSafe-append : (xs ys : Bytes) → AreSafe xs → AreSafe ys → AreSafe (xs ++ ys)
AreSafe-append [] ys h k = k
AreSafe-append (x ∷ xs) ys h k = (h.0, AreSafe-append xs ys h.1 k)

encode-AreSafe : (cp : ℕ) → IsPrintable cp → AreSafe (encode cp)
encode-AreSafe cp h = ground arith

Draws-AreSafe : {text rest new : Bytes} {n : ℕ} → Draws text rest new n → AreSafe new
Draws-AreSafe nothing = tt
Draws-AreSafe (shown {left} {new} cp rest d e a printable) =
    AreSafe-append new (encode cp) (Draws-AreSafe d) (encode-AreSafe cp printable)
Draws-AreSafe (control {left} {new} cp rest d e c) =
    AreSafe-append new (b'?' ∷ []) (Draws-AreSafe d) (omega arith)
Draws-AreSafe (stray {left} {new} c rest d e u) =
    AreSafe-append new (b'?' ∷ []) (Draws-AreSafe d) (omega arith)

-- What `yc_term_row_puts` adds to a row has no byte below 0x20, so no ESC, and no DEL, whatever the
-- text is.
pub row_puts-AreSafe :
    (text : Bytes) (t : Screen)
    → t.width < 2 ^ 31
    → t.current_row < t.height
    → t.current_row < length t.back
    → (row_at t).cols ≤ t.width
    → (t' : Screen) × (new : Bytes) × (row_puts text t ≡ ok t')
      × ((row_at t').bytes ≡ (row_at t).bytes ++ new)
      × AreSafe new
row_puts-AreSafe text t small inside stored clipped =
    let (rest, new, n, returned, draws, fits, done) = row_puts_lem text t small inside clipped in
    (
      put_row t (record { bytes = (row_at t).bytes ++ new; cols = (row_at t).cols + n }),
      new,
      returned,
      ap (λ (r : Row). r.bytes) (get_or-set_same t.back t.current_row _ _ stored),
      Draws-AreSafe draws,
    )
