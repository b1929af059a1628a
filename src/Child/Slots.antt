-- ===== src/Child/Slots.antt =====
-- How the array of a container's children changes where one of them leaves.
use yapara_c.Prelude.{
  ℕ, zero, suc, ◌+◌, ◌-◌, ◌<◌, List, [], ◌∷◌, ◌++◌, some, ◌≡◌, refl, ap, sym, ◌∙◌, arith, ◌==◌,
  length, length-append, get_elem?, set, take, Bool-cases, inl, inr, ◌⊎◌,
}
use yapara_c.Child.Defs.{Child}
use yapara_c.Child.Container.{fill_slot, remove_child}

-- Each child knows its place in the array, from `k` on.
abbrev pub AreIndexed : ℕ → List Child → Type 0
AreIndexed k [] = Unit
AreIndexed k (child ∷ children) = (child.container_index ≡ k) × AreIndexed (suc k) children

-- A number for each child, added up.
abbrev pub tally : (Child → ℕ) → List Child → ℕ
tally f [] = 0
tally f (child ∷ children) = f child + tally f children

pub tally-append :
    (f : Child → ℕ) (xs ys : List Child) → tally f (xs ++ ys) ≡ tally f xs + tally f ys
tally-append f [] ys = omega arith
tally-append f (x ∷ xs) ys = omega (arith, tally-append f xs ys)

-- A list with a last element.
abbrev IsSnoc : List Child → Type 0
IsSnoc children = (front : List Child) × ((last : Child) × (children ≡ front ++ last ∷ []))

with_last : (child : Child) (children : List Child) → IsSnoc (child ∷ children)
with_last child [] = ([], (child, refl))
with_last child (next ∷ children) =
    let (front, (last, same)) = with_last next children in
    (child ∷ front, (last, ap (◌∷◌ child) same))

get_elem?-snoc :
    (front : List Child) (last : Child) → get_elem? (front ++ last ∷ []) (length front) ≡ some last
get_elem?-snoc [] last = refl
get_elem?-snoc (x ∷ front) last = get_elem?-snoc front last

take-set_last :
    (front : List Child) (last moved : Child)
    → take (length front) (set (front ++ last ∷ []) (length front) moved) ≡ front
take-set_last [] last moved = refl
take-set_last (x ∷ front) last moved = ap (◌∷◌ x) (take-set_last front last moved)

take_front : (front : List Child) (last : Child) → take (length front) (front ++ last ∷ []) ≡ front
take_front [] last = refl
take_front (x ∷ front) last = ap (◌∷◌ x) (take_front front last)

take-set_front :
    (i : ℕ) (front : List Child) (last moved : Child)
    → i < length front
    → take (length front) (set (front ++ last ∷ []) i moved) ≡ set front i moved
take-set_front i [] last moved low = absurd (omega arith)
take-set_front zero (x ∷ front) last moved low = ap (◌∷◌ moved) (take_front front last)
take-set_front (suc i) (x ∷ front) last moved low =
    ap (◌∷◌ x) (take-set_front i front last moved (omega arith))

get_elem?-front :
    (i : ℕ) (front : List Child) (last : Child)
    → i < length front
    → get_elem? (front ++ last ∷ []) i ≡ get_elem? front i
get_elem?-front i [] last low = absurd (omega arith)
get_elem?-front zero (x ∷ front) last low = refl
get_elem?-front (suc i) (x ∷ front) last low = get_elem?-front i front last (omega arith)

get_elem?-low :
    (i : ℕ) (children : List Child) (child : Child)
    → get_elem? children i ≡ some child
    → i < length children
get_elem?-low i [] child h = absurd (ground arith)
get_elem?-low zero (x ∷ children) child h = omega arith
get_elem?-low (suc i) (x ∷ children) child h = omega (arith, get_elem?-low i children child h)

-- The two ways to take a child out: it was the last one, or the last one is in its place.
pub record IsRemoved (i : ℕ) (child : Child) (children : List Child) : Type 0 where
  pub front : List Child
  pub last : Child
  pub split : children ≡ front ++ last ∷ []
  pub way :
      ((last ≡ child) × (remove_child i children ≡ front))
      ⊎ ((get_elem? front i ≡ some child)
          × (remove_child i children ≡ set front i (record last { container_index = i })))

remove_snoc :
    (i : ℕ) (child : Child) (front : List Child) (last : Child)
    → get_elem? (front ++ last ∷ []) i ≡ some child
    → ((last ≡ child) × (remove_child i (front ++ last ∷ []) ≡ front))
      ⊎ ((get_elem? front i ≡ some child)
          × (remove_child i (front ++ last ∷ [])
              ≡ set front i (record last { container_index = i })))
unfolding remove_child fill_slot
remove_snoc i child front last at =
    let size : length (front ++ last ∷ []) - 1 ≡ length front =
      omega (arith, length-append front (last ∷ [])) in
    let moved : Child = record last { container_index = i } in
    elim (Bool-cases (i == length front)) [
      | inl end ↦
          let same : i ≡ length front = ground arith in
          let found : some last ≡ some child =
            sym (get_elem?-snoc front last) ∙ ap (get_elem? (front ++ last ∷ [])) (sym same) ∙ at in
          let it : last ≡ child = cc in
          inl (
            it,
            rw (size, get_elem?-snoc front last)
                (ap (λ k. take (length front) (set (front ++ last ∷ []) k moved)) same
                  ∙ take-set_last front last moved),
          )
      | inr inside ↦
          let low : i < length front = ground (
            arith,
            get_elem?-low i (front ++ last ∷ []) child at,
            length-append front (last ∷ []),
          ) in
          inr (
            sym (get_elem?-front i front last low) ∙ at,
            rw (size, get_elem?-snoc front last) (take-set_front i front last moved low),
          )
    ]

pub remove_child-IsRemoved :
    (i : ℕ) (child : Child) (children : List Child)
    → get_elem? children i ≡ some child
    → IsRemoved i child children
remove_child-IsRemoved i child [] at = absurd (ground arith)
remove_child-IsRemoved i child (x ∷ children) at =
    let (front, (last, split)) = with_last x children in
    record {
      front = front;
      last = last;
      split = split;
      way = rw split (remove_snoc i child front last (rw split at at));
    }
