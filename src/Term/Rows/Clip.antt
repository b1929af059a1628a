-- ===== src/Term/Rows/Clip.antt =====
-- What `yc_term_row_puts` puts into a row.
use yapara_c.Prelude.{
  set-get_or, ℕ, ◌+◌, ◌^◌, ◌≤◌, ◌<◌, false, ◌&&◌, ◌||◌, List, [], ◌∷◌, ◌++◌, Option, none, some,
  ◌≡◌, ◌≢◌, ◌⊎◌, inl, inr, refl, ap, sym, ◌∙◌, subst, append-nil, append_assoc, ltb, leb, ◌==◌,
  length, take, drop, length-append, length-drop, arith, Bool-cases,
}
use yapara_c.Prelude.Loop.{ok, run, Decreases, Steps, run-total}
use yapara_c.Term.Utf8.{Bytes, utf8_decode, codepoint_columns}
use yapara_c.Term.Utf8.Encode.{encode, IsAccepted, utf8_decode_iff}
use yapara_c.Term.Rows.{
  Row, Screen, PutsState, add_cols, put_char, puts_step, row_puts, row_at, put_row,
}

abbrev pub IsPrintable : ℕ → Type 0
IsPrintable cp = (0x20 ≤ cp) × (cp ≢ 0x7f)

-- How a text is put: what is left of it, what was put for the rest, and in how many columns. A code
-- point is shown, or is a control character, or the text begins with no code point.
pub data Draws (text : Bytes) : Bytes → Bytes → ℕ → Type 0 where
  nothing : Draws text text [] 0
  shown :
      {left new : Bytes} {n : ℕ} (cp : ℕ) (rest : Bytes)
      → Draws text left new n
      → left ≡ encode cp ++ rest
      → IsAccepted cp
      → IsPrintable cp
      → Draws text rest (new ++ encode cp) (n + codepoint_columns cp)
  control :
      {left new : Bytes} {n : ℕ} (cp : ℕ) (rest : Bytes)
      → Draws text left new n
      → left ≡ cp ∷ rest
      → (cp < 0x20) ⊎ (cp ≡ 0x7f)
      → Draws text rest (new ++ b'?' ∷ []) (n + 1)
  stray :
      {left new : Bytes} {n : ℕ} (c : ℕ) (rest : Bytes)
      → Draws text left new n
      → left ≡ c ∷ rest
      → utf8_decode left ≡ none
      → Draws text rest (new ++ b'?' ∷ []) (n + 1)

codepoint_columns-le : (cp : ℕ) → codepoint_columns cp ≤ 2
unfolding codepoint_columns
codepoint_columns-le cp = ground arith

drop-append_self : (xs ys : Bytes) → drop (length xs) (xs ++ ys) ≡ ys
drop-append_self [] ys = refl
drop-append_self (x ∷ xs) ys = drop-append_self xs ys

take-append_self : (xs ys : Bytes) → take (length xs) (xs ++ ys) ≡ xs
take-append_self [] ys = refl
take-append_self (x ∷ xs) ys = ap (◌∷◌ x) (take-append_self xs ys)

length-encode : (cp : ℕ) → 0 < length (encode cp)
length-encode cp = ground arith

-- What was decoded is the front of the text.
record Front (p : Bytes) (cp n : ℕ) : Type 0 where
  accepted : IsAccepted cp
  rest : Bytes
  len : n ≡ length (encode cp)
  whole : p ≡ encode cp ++ rest
  dropped : drop n p ≡ rest
  taken : take n p ≡ encode cp

decoded-Front : (p : Bytes) (cp n : ℕ) → utf8_decode p ≡ some (cp, n) → Front p cp n
decoded-Front p cp n h =
    let (accepted, len, (rest, whole)) = (utf8_decode_iff p cp n).0 h in
    record {
      accepted = accepted;
      rest = rest;
      len = len;
      whole = whole;
      dropped = rw (whole, len) (drop-append_self (encode cp) rest);
      taken = rw (whole, len) (take-append_self (encode cp) rest);
    }

encode-control : (cp : ℕ) (rest : Bytes) → (cp < 0x20) ⊎ (cp ≡ 0x7f) → encode cp ++ rest ≡ cp ∷ rest
encode-control cp rest (inl h) = ground arith
encode-control cp rest (inr h) = ground arith

row_eq : (r q : Row) → r.bytes ≡ q.bytes → r.cols ≡ q.cols → r ≡ q
row_eq r q h k = ground arith

module _ (width : ℕ) (small : width < 2 ^ 31) where
  puts_step-Decreases : Decreases (λ s. length s.text) (puts_step width)
  unfolding puts_step put_char
  puts_step-Decreases s s' h = by_code (utf8_decode s.text) refl
    where
      by_code : (o : Option (ℕ × ℕ)) → utf8_decode s.text ≡ o → length s'.text < length s.text
      by_code none e = ground (arith, rw e at h, length-drop 1 s.text)
      by_code (some (cp, n)) e =
          let f = decoded-Front s.text cp n e in
          ground (
            arith,
            rw e at h,
            length-drop n s.text,
            length-encode cp,
            f.len,
            ap length f.whole,
            length-append (encode cp) f.rest,
          )

  -- What has been put so far, of `text` into a row `r`.
  record Puts (text : Bytes) (r : Row) (s : PutsState) : Type 0 where
    new : Bytes
    n : ℕ
    draws : Draws text s.text new n
    bytes : s.row.bytes ≡ r.bytes ++ new
    cols : s.row.cols ≡ r.cols + n
    clipped : s.row.cols ≤ width

  -- Nothing is left, or a character may be too wide.
  abbrev pub IsDone : PutsState → Type 0
  IsDone s = (s.text ≡ []) ⊎ (width ≤ s.row.cols + 1)

  module _ (text : Bytes) (r : Row) (s : PutsState) (p : Puts text r s)
      (room : s.row.cols < width) where
    put-Puts :
        (rest new : Bytes) (cols : ℕ)
        → s.row.cols + cols ≤ width
        → Draws text rest (p.new ++ new) (p.n + cols)
        → Puts text r (record {
          text = rest;
          row = record { bytes = s.row.bytes ++ new; cols = add_cols s.row.cols cols };
        })
    put-Puts rest new cols fits d = record {
      new = p.new ++ new;
      n = p.n + cols;
      draws = d;
      bytes = ap (λ l. l ++ new) p.bytes ∙ append_assoc r.bytes p.new new;
      cols = omega (arith, p.cols);
      clipped = omega arith;
    }

    mark-Puts :
        (k : ℕ) (rest : Bytes)
        → drop k s.text ≡ rest
        → Draws text rest (p.new ++ b'?' ∷ []) (p.n + 1)
        → Puts text r (record {
          text = drop k s.text;
          row = record { bytes = s.row.bytes ++ b'?' ∷ []; cols = add_cols s.row.cols 1 };
        })
    mark-Puts k rest e d =
        put-Puts (drop k s.text) (b'?' ∷ []) 1 (omega arith)
          (subst (λ l. Draws text l (p.new ++ b'?' ∷ []) (p.n + 1)) (sym e) d)

    put_char-none :
        (c : ℕ) (rest : Bytes)
        → s.text ≡ c ∷ rest
        → utf8_decode s.text ≡ none
        → Steps (Puts text r) (λ t. Puts text r t × IsDone t) (put_char width none s)
    unfolding put_char
    put_char-none c rest e undecoded =
        mark-Puts 1 rest (ap (drop 1) e) (stray c rest p.draws e undecoded)

    put_char-control :
        (cp n : ℕ)
        → Front s.text cp n
        → (cp < 0x20) ⊎ (cp ≡ 0x7f)
        → Puts text r (record {
          text = drop n s.text;
          row = record { bytes = s.row.bytes ++ b'?' ∷ []; cols = add_cols s.row.cols 1 };
        })
    put_char-control cp n f c =
        mark-Puts n f.rest f.dropped
          (control cp f.rest p.draws (f.whole ∙ encode-control cp f.rest c) c)

    put_char-shown :
        (cp n : ℕ)
        → Front s.text cp n
        → IsPrintable cp
        → s.row.cols + codepoint_columns cp ≤ width
        → Puts text r (record {
          text = drop n s.text;
          row = record {
            bytes = s.row.bytes ++ take n s.text;
            cols = add_cols s.row.cols (codepoint_columns cp);
          };
        })
    put_char-shown cp n f printable fits =
        put-Puts (drop n s.text) (take n s.text) (codepoint_columns cp) fits
          (rw (f.taken, f.dropped) (shown cp f.rest p.draws f.whole f.accepted printable))

    put_char-some :
        (cp n : ℕ)
        → Front s.text cp n
        → Steps (Puts text r) (λ t. Puts text r t × IsDone t) (put_char width (some (cp, n)) s)
    unfolding put_char
    put_char-some cp n f = elim (Bool-cases (ltb cp 0x20 || cp == 0x7f)) [
      | inl c ↦ rw c (put_char-control cp n f (ground arith))
      | inr printable ↦ elim (Bool-cases (ltb width (add_cols s.row.cols (codepoint_columns cp)))) [
        | inl wide ↦ rw (printable, wide) (p, inr (ground (arith, codepoint_columns-le cp)))
        | inr fits ↦
            rw (printable, fits)
              (put_char-shown cp n f (ground arith) (ground (arith, codepoint_columns-le cp)))
      ]
    ]

    put_char-Steps :
        (o : Option (ℕ × ℕ))
        → utf8_decode s.text ≡ o
        → 0 < length s.text
        → Steps (Puts text r) (λ t. Puts text r t × IsDone t) (put_char width o s)
    put_char-Steps none e h = by_text s.text refl
      where
        by_text :
            (l : Bytes)
            → s.text ≡ l
            → Steps (Puts text r) (λ t. Puts text r t × IsDone t) (put_char width none s)
        by_text [] q = absurd (omega (arith, ap length q))
        by_text (c ∷ rest) q = put_char-none c rest q e
    put_char-Steps (some (cp, n)) e h = put_char-some cp n (decoded-Front s.text cp n e)

  nil_of_length : (l : Bytes) → ¬ (0 < length l) → l ≡ []
  nil_of_length [] h = refl
  nil_of_length (c ∷ l) h = absurd (h (omega arith))

  puts_step-Steps :
      (text : Bytes) (r : Row) (s : PutsState)
      → Puts text r s
      → Steps (Puts text r) (λ t. Puts text r t × IsDone t) (puts_step width s)
  unfolding puts_step
  puts_step-Steps text r s p = elim (Bool-cases (ltb 0 (length s.text) && ltb s.row.cols width)) [
    | inl more ↦
        rw more (put_char-Steps text r s p (ground arith) (utf8_decode s.text) refl (ground arith))
    | inr done ↦ rw done (p, ended done)
  ]
    where
      ended : (ltb 0 (length s.text) && ltb s.row.cols width) ≡ false → IsDone s
      ended done = elim (Bool-cases (ltb 0 (length s.text))) [
        | inl left ↦ inr (ground arith)
        | inr empty ↦ inl (nil_of_length s.text (ground arith))
      ]

  loop_returns :
      (text : Bytes) (r : Row)
      → r.cols ≤ width
      → (s : PutsState) × (run
            (λ t. length t.text)
            (puts_step width)
            (record { text = text; row = r })
          ≡ ok s)
        × (Puts text r s × IsDone s)
  loop_returns text r h =
      run-total (λ t. length t.text) (puts_step width) (Puts text r) (λ t. Puts text r t × IsDone t)
        puts_step-Decreases (puts_step-Steps text r) (record { text = text; row = r })
        (record {
          new = [];
          n = 0;
          draws = nothing;
          bytes = sym (append-nil r.bytes);
          cols = omega arith;
          clipped = h;
        })

-- `yc_term_row_puts` into a row of the frame returns, and changes that row only: the text is put code
-- point by code point as `Draws` says, in the columns that it counts, never past the width, and it
-- stops early only where less than two columns are left.
pub row_puts_lem :
    (text : Bytes) (t : Screen)
    → t.width < 2 ^ 31
    → t.current_row < t.height
    → (row_at t).cols ≤ t.width
    → (rest : Bytes) × (new : Bytes) × (n : ℕ) × (row_puts text t
        ≡ ok (put_row t (record { bytes = (row_at t).bytes ++ new; cols = (row_at t).cols + n })))
      × Draws text rest new n
      × ((row_at t).cols + n ≤ t.width)
      × ((rest ≡ []) ⊎ (t.width ≤ (row_at t).cols + n + 1))
unfolding row_puts
row_puts_lem [] t small inside clipped = (
  [],
  [],
  0,
  ap {A = List Row} (λ rows. ok (record t { back = rows }))
        (sym (set-get_or t.back t.current_row _))
      ∙ ap {A = Row} (λ r. ok (put_row t r)) (row_eq _ _ (sym (append-nil _)) (omega arith)),
  nothing,
  omega arith,
  inl refl,
)
row_puts_lem (c ∷ text) t small inside clipped =
    let (s, returned, (p, done)) = loop_returns t.width small (c ∷ text) (row_at t) clipped in
    let here : leb t.height t.current_row ≡ false = ground arith in
    (
      s.text,
      p.new,
      p.n,
      rw (here, returned) (ap {A = Row} (λ r. ok (put_row t r)) (row_eq _ _ p.bytes p.cols)),
      p.draws,
      omega (arith, p.cols, p.clipped),
      rw p.cols at done,
    )
