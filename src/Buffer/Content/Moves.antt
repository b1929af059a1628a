-- ===== src/Buffer/Content/Moves.antt =====
-- Which fragments `yc_buffer_transfer_max` moves whole.
use yapara_c.Prelude.{
  ℕ, ◌+◌, ◌-◌, ◌%◌, ◌≤◌, ◌<◌, List, [], ◌∷◌, ◌++◌, ◌≡◌, refl, ap, ◌∙◌, arith, leb, length,
  length-append, append_assoc, Bool-cases, inl, inr,
}
use yapara_c.Buffer.Defs.{Fragment, uint_mod}
use yapara_c.Buffer.Transfer.{move_frags, moved_size}
use yapara_c.Buffer.Content.{chain_bytes, IsChain}

-- The first fragment that stays is longer than what is left to transfer.
abbrev IsShort : ℕ → List Fragment → Type 0
IsShort left [] = Unit
IsShort left (f ∷ frags) = left < length f.bytes

-- What the loop of `yc_buffer_transfer_max` moves and leaves.
abbrev pub Moves : ℕ → List Fragment → List Fragment × ℕ × List Fragment → Type 0
Moves n frags (moved, left, rest) =
    (chain_bytes moved ++ chain_bytes rest ≡ chain_bytes frags)
    × (length (chain_bytes moved) + left ≡ n)
    × IsShort left rest
    × (IsChain frags → IsChain moved × IsChain rest)

Moves-whole :
    (n : ℕ) (f : Fragment) (frags : List Fragment) (r : List Fragment × ℕ × List Fragment)
    → length f.bytes ≤ n
    → Moves (n - length f.bytes) frags r
    → Moves n (f ∷ frags) (f ∷ r.0, r.1, r.2)
Moves-whole n f frags (moved, left, rest) h (bytes, count, short, keep) = (
  append_assoc f.bytes (chain_bytes moved) (chain_bytes rest) ∙ ap (λ l. f.bytes ++ l) bytes,
  omega (arith, length-append f.bytes (chain_bytes moved)),
  short,
  λ v. ((v.0, v.1, (keep v.2).0), (keep v.2).1),
)

pub move_frags-Moves : (n : ℕ) (frags : List Fragment) → Moves n frags (move_frags n frags)
unfolding move_frags
move_frags-Moves n [] = (refl, omega arith, tt, λ v. (v, v))
move_frags-Moves n (f ∷ frags) = elim (Bool-cases (leb (length f.bytes) n)) [
  | inl whole ↦ rw whole (
      Moves-whole n f frags (move_frags (n - length f.bytes) frags) (ground arith)
        (move_frags-Moves (n - length f.bytes) frags))
  | inr part ↦ rw part (refl, omega arith, ground arith, λ v. (tt, v))
]

pub moved_size-length :
    (frags : List Fragment) → moved_size frags ≡ length (chain_bytes frags) % uint_mod
unfolding moved_size
moved_size-length [] = omega arith
moved_size-length (f ∷ frags) =
    omega (arith, moved_size-length frags, length-append f.bytes (chain_bytes frags))
