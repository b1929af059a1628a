-- ===== src/CircularBuffer/Room.antt =====
-- The loop of `yc_circular_buffer_add` that makes room for a line.
use yapara_c.Prelude.{
  ℕ, ◌+◌, ◌-◌, ◌^◌, ◌≤◌, ◌<◌, Bool, true, false, ◌||◌, List, [], ◌∷◌, ◌≡◌, inl, inr, refl, ap, ◌∙◌,
  arith, ltb, ◌==◌, if◌then◌else◌, length, Bool-cases,
}
use yapara_c.Prelude.Loop.{again, stop, Result, ok, run, Decreases, run-again, run-stop}
use yapara_c.CircularBuffer.{CircularBuffer, EvictState, drop_oldest, evict_step, evict, add32}
use yapara_c.CircularBuffer.Content.{Entry, total, Holds}
use yapara_c.CircularBuffer.Evict.{recount, drop_oldest-Holds}

-- Whether a line of `len` bytes finds no room behind the lines `ls`.
abbrev pub is_full : (buffer_size max_lines len : ℕ) → List Entry → Bool
is_full B M len ls = ltb B (len + total ls) || M == length ls

-- The lines that stay: the oldest ones are dropped as long as there is no room.
abbrev pub lines_kept : (buffer_size max_lines len : ℕ) → List Entry → List Entry
lines_kept B M len [] = []
lines_kept B M len (l ∷ ls) = if is_full B M len (l ∷ ls) then lines_kept B M len ls else l ∷ ls

pub length-lines_kept : (B M len : ℕ) (ls : List Entry) → length (lines_kept B M len ls) ≤ length ls
length-lines_kept B M len [] = omega arith
length-lines_kept B M len (l ∷ ls) = ground (arith, length-lines_kept B M len ls)

-- There is room behind them.
pub lines_kept-room :
    (B M len : ℕ) (ls : List Entry)
    → len ≤ B
    → 0 < M
    → length ls ≤ M
    → (len + total (lines_kept B M len ls) ≤ B) × (length (lines_kept B M len ls) < M)
lines_kept-room B M len [] h pos few = (omega arith, pos)
lines_kept-room B M len (l ∷ ls) h pos few = elim (Bool-cases (is_full B M len (l ∷ ls))) [
  | inl full ↦ rw full (lines_kept-room B M len ls h pos (omega arith))
  | inr room ↦ rw room (ground arith, ground arith)
]

evict_step-Decreases : (len : ℕ) → Decreases (λ s. s.ring.num_lines) (evict_step len)
unfolding evict_step drop_oldest
evict_step-Decreases len s s' h = ground arith

is_full-same :
    (r : CircularBuffer) (ls : List Entry) (len : ℕ)
    → Holds r ls
    → (ltb r.buffer_size (len + r.buf_occupancy) || r.max_lines == r.num_lines)
      ≡ is_full r.buffer_size r.max_lines len ls
is_full-same r ls len h =
    ap (λ o. ltb r.buffer_size (len + o) || r.max_lines == r.num_lines) h.occupied
    ∙ ap (λ n. ltb r.buffer_size (len + total ls) || r.max_lines == n) h.counted

evict_step-full :
    (r : CircularBuffer) (l : Entry) (ls : List Entry) (len k : ℕ)
    → Holds r (l ∷ ls)
    → is_full r.buffer_size r.max_lines len (l ∷ ls) ≡ true
    → evict_step len (record { ring = r; n_evicted = k })
      ≡ again (record { ring = drop_oldest r; n_evicted = add32 k 1 })
unfolding evict_step
evict_step-full r l ls len k h full =
    let some_line : (r.num_lines == 0) ≡ false = ap (λ n. n == 0) h.counted ∙ ground arith in
    rw (is_full-same r (l ∷ ls) len h, full, some_line) refl

evict_step-room :
    (r : CircularBuffer) (ls : List Entry) (len k : ℕ)
    → Holds r ls
    → is_full r.buffer_size r.max_lines len ls ≡ false
    → evict_step len (record { ring = r; n_evicted = k })
      ≡ stop (record { ring = r; n_evicted = k })
unfolding evict_step
evict_step-room r ls len k h room = rw (is_full-same r ls len h, room) refl

-- What the loop makes of a buffer that holds `ls`, from a count `k` on.
abbrev pub Evicts : ℕ → ℕ → CircularBuffer → List Entry → Result (Unit {0}) EvictState → Type 0
Evicts len k r ls result =
    let kept = lines_kept r.buffer_size r.max_lines len ls in
    (n : ℕ) × (o : ℕ) × (result
      ≡ ok (record { ring = recount r n o; n_evicted = k + (length ls - length kept) }))
    × Holds (recount r n o) kept

run-Evicts :
    (len : ℕ) (ls : List Entry) (r : CircularBuffer) (k : ℕ)
    → Holds r ls
    → len ≤ r.buffer_size
    → 0 < r.max_lines
    → k + length ls < 2 ^ 32
    → Evicts len k r ls
        (run (λ s. s.ring.num_lines) (evict_step len) (record { ring = r; n_evicted = k }))
unfolding drop_oldest
run-Evicts len [] r k h fits pos small = (
  r.num_lines,
  r.buf_occupancy,
  run-stop _ _ (evict_step-Decreases len) _ _ (evict_step-room r [] len k h (ground arith))
      ∙ ap (λ i. ok (record { ring = r; n_evicted = i })) (omega arith),
  h,
)
run-Evicts len (l ∷ ls) r k h fits pos small =
    let B = r.buffer_size in
    let M = r.max_lines in
    elim (Bool-cases (is_full B M len (l ∷ ls))) [
      | inl full ↦
          let (n, o, ran, kept) =
            run-Evicts len ls (drop_oldest r) (add32 k 1) (drop_oldest-Holds r l ls h) fits pos
              (omega arith) in
          rw full (
            n,
            o,
            run-again _ _ (evict_step-Decreases len) _ _ (evict_step-full r l ls len k h full)
                ∙ ran
                ∙ ap (λ i. ok (record { ring = recount r n o; n_evicted = i }))
                    (omega (arith, length-lines_kept B M len ls)),
            kept,
          )
      | inr room ↦ rw room (
        r.num_lines,
        r.buf_occupancy,
        run-stop _ _ (evict_step-Decreases len) _ _ (evict_step-room r (l ∷ ls) len k h room)
            ∙ ap (λ i. ok (record { ring = r; n_evicted = i })) (omega arith),
        h,
      )
    ]

-- The loop returns: it drops the oldest lines, and only as long as there is no room.
pub evict-Evicts :
    (len : ℕ) (r : CircularBuffer) (ls : List Entry)
    → Holds r ls
    → len ≤ r.buffer_size
    → 0 < r.max_lines
    → Evicts len 0 r ls (evict len r)
unfolding evict
evict-Evicts len r ls h fits pos =
    run-Evicts len ls r 0 h fits pos (omega (arith, h.few, h.sized.few))
