-- ===== src/Child/Crowd.antt =====
-- What it takes to keep a container of children consistent.
use yapara_c.Prelude.{
  ℕ, zero, suc, ◌+◌, ◌≤◌, ◌<◌, not, ◌||◌, List, [], ◌∷◌, ◌++◌, some, ◌≡◌, refl, ap, sym, ◌∙◌, subst,
  arith, leb, ◌==◌, if◌then◌else◌, length, length-append, length-set, get_elem?, set, Bool-cases,
  inl, inr,
}
use yapara_c.Child.Defs.{Child}
use yapara_c.Child.Container.{Container, signal_ready, trim_done, retain_done_child, remove_child}
use yapara_c.Child.Slots.{AreIndexed, tally, tally-append, remove_child-IsRemoved}

pub AreIndexed-append :
    (k : ℕ) (xs : List Child) (child : Child)
    → AreIndexed k xs
    → child.container_index ≡ k + length xs
    → AreIndexed k (xs ++ child ∷ [])
AreIndexed-append k [] child all h = (omega arith, tt)
AreIndexed-append k (x ∷ xs) child (here, all) h =
    (here, AreIndexed-append (suc k) xs child all (omega arith))

AreIndexed-front : (k : ℕ) (xs ys : List Child) → AreIndexed k (xs ++ ys) → AreIndexed k xs
AreIndexed-front k [] ys all = tt
AreIndexed-front k (x ∷ xs) ys (here, all) = (here, AreIndexed-front (suc k) xs ys all)

pub AreIndexed-set :
    (k i : ℕ) (xs : List Child) (child : Child)
    → child.container_index ≡ k + i
    → AreIndexed k xs
    → AreIndexed k (set xs i child)
AreIndexed-set k i [] child h all = tt
AreIndexed-set k zero (x ∷ xs) child h (here, all) = (omega arith, all)
AreIndexed-set k (suc i) (x ∷ xs) child h (here, all) =
    (here, AreIndexed-set (suc k) i xs child (omega arith) all)

pub get_elem?-AreIndexed :
    (k i : ℕ) (xs : List Child) (child : Child)
    → get_elem? xs i ≡ some child
    → AreIndexed k xs
    → child.container_index ≡ k + i
get_elem?-AreIndexed k i [] child at all = absurd (ground arith)
get_elem?-AreIndexed k zero (x ∷ xs) child at (here, all) =
    let same : x ≡ child = cc in sym (ap (λ (c : Child). c.container_index) same) ∙ omega arith
get_elem?-AreIndexed k (suc i) (x ∷ xs) child at (here, all) =
    omega (arith, get_elem?-AreIndexed (suc k) i xs child at all)

pub tally-set :
    (f : Child → ℕ) (i : ℕ) (xs : List Child) (child changed : Child)
    → get_elem? xs i ≡ some child
    → tally f (set xs i changed) + f child ≡ tally f xs + f changed
tally-set f i [] child changed at = absurd (ground arith)
tally-set f zero (x ∷ xs) child changed at = let same : x ≡ child = cc in rw same (omega arith)
tally-set f (suc i) (x ∷ xs) child changed at = omega (arith, tally-set f i xs child changed at)

-- A number that does not depend on the child's place.
abbrev pub IsSteady : (Child → ℕ) → Type 0
IsSteady f = (child : Child) (i : ℕ) → f (record child { container_index = i }) ≡ f child

-- What removing a child leaves of the array: the others' places, in order, and no other change.
pub record IsWithout (child : Child) (before after : List Child) : Type 0 where
  pub indexed : AreIndexed 0 after
  pub shorter : length before ≡ suc (length after)
  pub accounted : (f : Child → ℕ) → IsSteady f → tally f before ≡ tally f after + f child

pub remove_child-IsWithout :
    (i : ℕ) (child : Child) (children : List Child)
    → get_elem? children i ≡ some child
    → AreIndexed 0 children
    → IsWithout child children (remove_child i children)
remove_child-IsWithout i child children at all =
    let removed = remove_child-IsRemoved i child children at in
    let front = removed.front in
    let last = removed.last in
    let fronts = AreIndexed-front 0 front (last ∷ []) (subst (AreIndexed 0) removed.split all) in
    elim removed.way [
      | inl (same, gone) ↦
          rw (gone, removed.split)
            (record {
              indexed = fronts;
              shorter = omega (arith, length-append front (last ∷ []));
              accounted =
                  λ f steady. rw (sym same) (omega (arith, tally-append f front (last ∷ [])));
            })
      | inr (found, moved) ↦
          let moved_last : Child = record last { container_index = i } in
          rw (moved, removed.split)
            (record {
              indexed = AreIndexed-set 0 i front moved_last (omega arith) fronts;
              shorter =
                  omega (arith, length-append front (last ∷ []), length-set front i moved_last);
              accounted = λ f steady. omega (
                arith,
                tally-append f front (last ∷ []),
                tally-set f i front child moved_last found,
                steady last i,
              );
            })
    ]

-- The children that are done, and those with this process id.
abbrev pub count_done : Child → ℕ
count_done child = if child.done_emitted then 1 else 0

abbrev pub count_pid : ℕ → Child → ℕ
count_pid pid child = if child.pid == pid then 1 else 0

-- No more children than may be, each in its place in the array, none of them done; and no more that
-- are done than are retained.
pub record IsConsistent (c : Container) : Type 0 where
  pub room : 0 < c.max_children
  pub bounded : length c.children ≤ c.max_children
  pub indexed : AreIndexed 0 c.children
  pub live : tally count_done c.children ≡ 0
  pub retained : length c.done_children ≤ c.max_done_children

trim_done-short :
    (max : ℕ) (children : List Child)
    → 0 < max
    → let (freed, left) = trim_done max children in length left < max
unfolding trim_done
trim_done-short max [] some_kept = some_kept
trim_done-short max (child ∷ children) some_kept =
    elim (Bool-cases (leb max (length (child ∷ children)))) [
      | inl full ↦ rw full (trim_done-short max children some_kept)
      | inr fits ↦ rw fits (ground arith)
    ]

trim_done-tally :
    (f : Child → ℕ) (max : ℕ) (children : List Child)
    → let (freed, left) = trim_done max children in tally f children ≡ tally f freed + tally f left
unfolding trim_done
trim_done-tally f max [] = refl
trim_done-tally f max (child ∷ children) = elim (Bool-cases (leb max (length (child ∷ children)))) [
  | inl full ↦ rw full (omega (arith, trim_done-tally f max children))
  | inr fits ↦ rw fits (omega arith)
]

-- What retaining keeps: all that were done are retained still, or freed; and the other fields.
pub record IsRetained (child : Child) (before after : Container) : Type 0 where
  pub children : after.children ≡ before.children
  pub max_children : after.max_children ≡ before.max_children
  pub has_ready : after.has_ready ≡ before.has_ready
  pub retained : length after.done_children ≤ after.max_done_children
  pub accounted :
      (f : Child → ℕ)
      → tally f after.done_children + tally f after.freed
        ≡ tally f before.done_children + tally f before.freed + f child

pub retain_done_child-IsRetained :
    (child : Child) (c : Container)
    → length c.done_children ≤ c.max_done_children
    → IsRetained child c (retain_done_child child c)
unfolding retain_done_child
retain_done_child-IsRetained child c few = elim (Bool-cases (c.max_done_children == 0)) [
  | inl none_kept ↦ rw none_kept (record {
    children = refl;
    max_children = refl;
    has_ready = refl;
    retained = few;
    accounted = λ f. omega (arith, tally-append f c.freed (child ∷ []));
  })
  | inr kept ↦
      let (freed, left) = trim_done c.max_done_children c.done_children in
      let short = trim_done-short c.max_done_children c.done_children (ground arith) in
      rw kept (record {
        children = refl;
        max_children = refl;
        has_ready = refl;
        retained = omega (arith, short, length-append left (child ∷ []));
        accounted = λ f. omega (
          arith,
          trim_done-tally f c.max_done_children c.done_children,
          tally-append f c.freed freed,
          tally-append f left (child ∷ []),
        );
      })
]

pub signal_ready-IsConsistent : (c : Container) → IsConsistent c → IsConsistent (signal_ready c)
unfolding signal_ready
signal_ready-IsConsistent c ok =
    elim (Bool-cases
      (not c.has_ready || (c.ready_idle_started || leb c.max_children (length c.children)))) [
        | inl stays ↦ rw stays ok
        | inr starts ↦ rw starts (record {
          room = ok.room;
          bounded = ok.bounded;
          indexed = ok.indexed;
          live = ok.live;
          retained = ok.retained;
        })
      ]
