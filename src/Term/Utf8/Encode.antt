-- ===== src/Term/Utf8/Encode.antt =====
-- Which byte sequences `utf8_decode` accepts.
use yapara_c.Prelude.{
  ℕ, ◌+◌, ◌/◌, ◌%◌, ◌≤◌, ◌<◌, [], ◌∷◌, ◌++◌, Option, none, some, ◌≡◌, ◌⊎◌, ◌↔◌, inl, inr, ap, sym,
  ◌∙◌, ltb, if◌then◌else◌, length, take, drop, take-append-drop, arith, Bool-cases,
}
use yapara_c.Term.Utf8.{Bytes, continue_cp, check_cp, decode_rest, utf8_decode}

-- The bytes of a code point.
abbrev pub encode : ℕ → Bytes
encode cp =
    if ltb cp 0x80
    then cp ∷ []
    else if ltb cp 0x800
    then (0xc0 + cp / 64) ∷ (0x80 + cp % 64) ∷ []
    else if ltb cp 0x10000
    then (0xe0 + cp / 4096) ∷ (0x80 + cp / 64 % 64) ∷ (0x80 + cp % 64) ∷ []
    else (0xf0 + cp / 262144)
      ∷ (0x80 + cp / 4096 % 64)
      ∷ (0x80 + cp / 64 % 64)
      ∷ (0x80 + cp % 64)
      ∷ []

-- No surrogate, and what four bytes of which the first is at most 0xf4 can hold.
abbrev pub IsAccepted : ℕ → Type 0
IsAccepted cp = (cp < 0x140000) × ((cp < 0xd800) ⊎ (0xdfff < cp))

decode-encode :
    (cp : ℕ) (rest : Bytes)
    → IsAccepted cp
    → utf8_decode (encode cp ++ rest) ≡ some (cp, length (encode cp))
unfolding utf8_decode decode_rest continue_cp check_cp
decode-encode cp rest h = ground arith

-- The bytes that were taken are those of the code point.
abbrev Decoded : Bytes → Option (ℕ × ℕ) → Type 0
Decoded p none = Unit
Decoded p (some (cp, n)) = IsAccepted cp × (n ≡ length (encode cp)) × (take n p ≡ encode cp)

decode-two : (c : ℕ) (p : Bytes) → 0xc2 ≤ c → c < 0xe0 → Decoded (c ∷ p) (decode_rest 2 (c % 32) p)
unfolding decode_rest continue_cp check_cp
decode-two c [] h k = ground arith
decode-two c (d ∷ p) h k = ground arith

decode-three :
    (c : ℕ) (p : Bytes) → 0xe0 ≤ c → c < 0xf0 → Decoded (c ∷ p) (decode_rest 3 (c % 16) p)
unfolding decode_rest continue_cp check_cp
decode-three c [] h k = ground arith
decode-three c (d ∷ []) h k = ground arith
decode-three c (d ∷ e ∷ p) h k = ground arith

decode-four : (c : ℕ) (p : Bytes) → 0xf0 ≤ c → c < 0xf5 → Decoded (c ∷ p) (decode_rest 4 (c % 8) p)
unfolding decode_rest continue_cp check_cp
decode-four c [] h k = ground arith
decode-four c (d ∷ []) h k = ground arith
decode-four c (d ∷ e ∷ []) h k = ground arith
decode-four c (d ∷ e ∷ f ∷ p) h k = ground arith

utf8_decode-Decoded : (p : Bytes) → Decoded p (utf8_decode p)
unfolding utf8_decode
utf8_decode-Decoded [] = tt
utf8_decode-Decoded (c ∷ p) = elim (Bool-cases (ltb c 0x80)) [
  | inl ascii ↦ rw ascii (ground arith)
  | inr high ↦ elim (Bool-cases (ltb c 0xc2)) [
    | inl stray ↦ rw (high, stray) tt
    | inr lead ↦ elim (Bool-cases (ltb c 0xe0)) [
      | inl two ↦ rw (high, lead, two) (decode-two c p (ground arith) (ground arith))
      | inr more ↦ elim (Bool-cases (ltb c 0xf0)) [
        | inl three ↦ rw (high, lead, more, three) (decode-three c p (ground arith) (ground arith))
        | inr most ↦ elim (Bool-cases (ltb c 0xf5)) [
          | inl four ↦
              rw (high, lead, more, most, four) (decode-four c p (ground arith) (ground arith))
          | inr none_such ↦ rw (high, lead, more, most, none_such) tt
        ]
      ]
    ]
  ]
]

take-append-drop_of : (n : ℕ) (p bytes : Bytes) → take n p ≡ bytes → p ≡ bytes ++ drop n p
take-append-drop_of n p bytes h = sym (take-append-drop n p) ∙ ap (λ l. l ++ drop n p) h

-- `utf8_decode` finds a code point, and its length, exactly where the text begins with the bytes of
-- that code point in its shortest form, and the code point is no surrogate and below 0x140000.
pub utf8_decode_iff :
    (p : Bytes) (cp n : ℕ)
    → (utf8_decode p ≡ some (cp, n))
      ↔ (IsAccepted cp × (n ≡ length (encode cp)) × ((rest : Bytes) × (p ≡ encode cp ++ rest)))
utf8_decode_iff p cp n = (
  (λ h.
      let d : Decoded p (some (cp, n)) = rw h at (utf8_decode-Decoded p) in
      (d.0, d.1, (drop n p, take-append-drop_of n p (encode cp) d.2))),
  (λ (accepted, len, (rest, e)). rw (e, len) (decode-encode cp rest accepted)),
)
