-- ===== src/Buffer/Content/Search.antt =====
-- Searching a buffer for a byte, and reading up to it.
use mathlib.Core.Option
use native.Mathlib.Nat.{zero-add, suc-add}
use native.Mathlib.Numerals.{add-one}
use yapara_c.Prelude.{
  ℕ, zero, suc, ◌+◌, List, [], ◌∷◌, ◌++◌, Option, none, some, ◌≡◌, ◌≢◌, refl, ap, ◌∙◌, arith, ◌==◌,
  ==_iff, get_elem?, Bool-cases, inl, inr, length, take, drop,
}
use yapara_c.Buffer.Defs.{
  Bytes, Fragment, Buffer, Pool, read, memchr, shift, index_of_frags, index_of, read_to,
  parse_string0,
}
use yapara_c.Buffer.Content.{chain_bytes, content, IsValid}
use yapara_c.Buffer.Content.Read.{read_lem}

-- `c` is none of the bytes.
abbrev pub Lacks : ℕ → Bytes → Type 0
Lacks c [] = Unit
Lacks c (x ∷ xs) = (x ≢ c) × Lacks c xs

-- `memchr` finds the first `c`.
abbrev pub IsFirst : ℕ → Bytes → Option ℕ → Type 0
IsFirst c xs none = Lacks c xs
IsFirst c xs (some i) = Lacks c (take i xs) × (get_elem? xs i ≡ some c)

memchr-IsFirst : (c : ℕ) (xs : Bytes) → IsFirst c xs (memchr c xs)
unfolding memchr
memchr-IsFirst c [] = tt
memchr-IsFirst c (x ∷ xs) = elim (Bool-cases (x == c)) [
  | inl here ↦ rw here (tt, ap some ((==_iff x c).0 here))
  | inr other ↦ rw other (later (memchr c xs) (λ q. ground arith) (memchr-IsFirst c xs))
]
  where
    later : (o : Option ℕ) → x ≢ c → IsFirst c xs o → IsFirst c (x ∷ xs) (Option.map (λ i. i + 1) o)
    later none ne h = (ne, h)
    later (some i) ne h = rw add-one ((ne, h.0), h.1)

-- In the front part.
IsFirst-append_front :
    (c : ℕ) (xs ys : Bytes) (i : ℕ) → IsFirst c xs (some i) → IsFirst c (xs ++ ys) (some i)
IsFirst-append_front c [] ys i h = cc
IsFirst-append_front c (x ∷ xs) ys zero h = h
IsFirst-append_front c (x ∷ xs) ys (suc i) h =
    let (lacks, at) = IsFirst-append_front c xs ys i (h.0.1, h.1) in ((h.0.0, lacks), at)

-- Behind a part that lacks `c`.
IsFirst-append_back :
    (c : ℕ) (xs ys : Bytes) (o : Option ℕ)
    → Lacks c xs
    → IsFirst c ys o
    → IsFirst c (xs ++ ys) (shift (length xs) o)
IsFirst-append_back c [] ys none l h = h
IsFirst-append_back c [] ys (some i) l h = rw (zero-add i) h
IsFirst-append_back c (x ∷ xs) ys none l h = (l.0, IsFirst-append_back c xs ys none l.1 h)
IsFirst-append_back c (x ∷ xs) ys (some i) l h =
    let (lacks, at) = IsFirst-append_back c xs ys (some i) l.1 h in rw suc-add ((l.0, lacks), at)

index_of_frags-IsFirst :
    (c : ℕ) (frags : List Fragment) → IsFirst c (chain_bytes frags) (index_of_frags c frags)
unfolding index_of_frags
index_of_frags-IsFirst c [] = tt
index_of_frags-IsFirst c (f ∷ frags) =
    found (memchr c f.bytes) (memchr-IsFirst c f.bytes) (index_of_frags-IsFirst c frags)
  where
    found :
        (o : Option ℕ)
        → IsFirst c f.bytes o
        → IsFirst c (chain_bytes frags) (index_of_frags c frags)
        → IsFirst c
            (f.bytes ++ chain_bytes frags)
            (elim o [ some i ↦ some i | none ↦ shift (length f.bytes) (index_of_frags c frags) ])
    found none l h = IsFirst-append_back c f.bytes (chain_bytes frags) (index_of_frags c frags) l h
    found (some i) at h = IsFirst-append_front c f.bytes (chain_bytes frags) i at

pub index_of-IsFirst : (c : ℕ) (b : Buffer) → IsFirst c (content b) (index_of c b)
unfolding index_of
index_of-IsFirst c b = index_of_frags-IsFirst c b.frags

-- Reading one byte past the first `c` takes a piece without `c`, and that `c`.
take_past :
    (c : ℕ) (xs : Bytes) (i : ℕ)
    → get_elem? xs i ≡ some c
    → (take (suc i) xs ≡ take i xs ++ c ∷ []) × (take i (take (suc i) xs) ≡ take i xs)
take_past c [] i h = absurd (cc)
take_past c (x ∷ xs) zero h = (ground arith, refl)
take_past c (x ∷ xs) (suc i) h =
    let (past, inside) = take_past c xs i h in (ap (◌∷◌ x) past, ap (◌∷◌ x) inside)

-- The outcome of reading up to a delimiter: nothing is read where there is none; otherwise the
-- piece lacks the delimiter, the buffer held it, the delimiter and what the buffer holds now.
abbrev pub ReadsTo : ℕ → Buffer → Option Bytes × Buffer × Pool → Type 0
ReadsTo c b (none, b', pool) = Lacks c (content b) × (b' ≡ b)
ReadsTo c b (some line, b', pool) = Lacks c line × (content b ≡ line ++ c ∷ content b') × IsValid b'

take-drop-suc :
    (c : ℕ) (xs : Bytes) (i : ℕ) → get_elem? xs i ≡ some c → xs ≡ take i xs ++ c ∷ drop (suc i) xs
take-drop-suc c [] i h = absurd (cc)
take-drop-suc c (x ∷ xs) zero h = ground arith
take-drop-suc c (x ∷ xs) (suc i) h = ap (◌∷◌ x) (take-drop-suc c xs i h)

read_to-ReadsTo :
    (c : ℕ) (o : Option ℕ) (b : Buffer) (pool : Pool)
    → IsFirst c (content b) o
    → IsValid b
    → ReadsTo c b (read_to o b pool)
unfolding read_to
read_to-ReadsTo c none b pool h v = (h, refl)
read_to-ReadsTo c (some n) b pool (lacks, at) v = rw add-one (
    let (copied, left, valid) = read_lem (suc n) b pool v in
    let line : take n (read (suc n) b pool).0 ≡ take n (content b) =
      ap (take n) copied ∙ (take_past c (content b) n at).1 in
    (rw line lacks, rw (line, left) (take-drop-suc c (content b) n at), valid))

-- `yc_buffer_parse_string0` removes the first string with its NUL and returns it without; where the
-- buffer has no NUL it returns NULL and changes nothing.
pub parse_string0-ReadsTo :
    (b : Buffer) (pool : Pool) → IsValid b → ReadsTo 0 b (parse_string0 b pool)
unfolding parse_string0
parse_string0-ReadsTo b pool v = read_to-ReadsTo 0 (index_of 0 b) b pool (index_of-IsFirst 0 b) v
