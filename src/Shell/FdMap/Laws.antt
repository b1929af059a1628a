-- ===== src/Shell/FdMap/Laws.antt =====
-- The redirections of a line as a map, and what `check_dup_order` decides.
use yapara_c.Prelude.{
  ℕ, ◌<◌, true, false, List, [], ◌∷◌, ◌++◌, Option, none, some, ◌≡◌, ◌≢◌, ◌↔◌, ◌⊎◌, refl, sym, ap,
  ◌∙◌, subst, ◌&&◌, arith, ◌==◌, if◌then◌else◌, Bool-cases, inl, inr,
}
use yapara_c.Shell.Types.{FdMode, FdInfo, mode_null, mode_pipe, mode_inherit, mode_file, mode_dup}
use yapara_c.Shell.FdMap.{
  FdSlot, FdMap, fdmap_get, fdmap_set, is_dup, is_later, dup_order_from, check_dup_order,
}

-- A redirection of `fd` replaces an earlier one of the same descriptor, and leaves all others.
pub fdmap_get-fdmap_set :
    (m : FdMap) (fd order : ℕ) (info : FdInfo) (k : ℕ)
    → fdmap_get (fdmap_set m fd order info) k
      ≡ (if fd == k then some (record { fd = fd; info = info; order = order }) else fdmap_get m k)
unfolding fdmap_get fdmap_set
fdmap_get-fdmap_set [] fd order info k = refl
fdmap_get-fdmap_set (s ∷ m) fd order info k = ground (arith, fdmap_get-fdmap_set m fd order info k)

-- No two slots have the same descriptor.
abbrev pub AllSlots : (FdSlot → Type 0) → FdMap → Type 0
AllSlots P [] = Unit
AllSlots P (s ∷ m) = P s × AllSlots P m

abbrev pub IsDistinct : FdMap → Type 0
IsDistinct [] = Unit
IsDistinct (s ∷ m) = AllSlots (λ t. t.fd ≢ s.fd) m × IsDistinct m

fdmap_set-AllSlots :
    (P : FdSlot → Type 0) (m : FdMap) (fd order : ℕ) (info : FdInfo)
    → AllSlots P m
    → P (record { fd = fd; info = info; order = order })
    → AllSlots P (fdmap_set m fd order info)
unfolding fdmap_set
fdmap_set-AllSlots P [] fd order info a h = (h, tt)
fdmap_set-AllSlots P (s ∷ m) fd order info a h = elim (Bool-cases (s.fd == fd)) [
  | inl same ↦ rw same (h, a.1)
  | inr other ↦ rw other (a.0, fdmap_set-AllSlots P m fd order info a.1 h)
]

pub fdmap_set-IsDistinct :
    (m : FdMap) (fd order : ℕ) (info : FdInfo)
    → IsDistinct m
    → IsDistinct (fdmap_set m fd order info)
unfolding fdmap_set
fdmap_set-IsDistinct [] fd order info d = (tt, tt)
fdmap_set-IsDistinct (s ∷ m) fd order info d = elim (Bool-cases (s.fd == fd)) [
  | inl same ↦ rw same (moved m (ground arith) d.0, d.1)
  | inr other ↦ rw other (
    fdmap_set-AllSlots (λ t. t.fd ≢ s.fd) m fd order info d.0 (ground arith),
    fdmap_set-IsDistinct m fd order info d.1,
  )
]
  where
    moved : (l : FdMap) → s.fd ≡ fd → AllSlots (λ t. t.fd ≢ s.fd) l → AllSlots (λ t. t.fd ≢ fd) l
    moved l q a = rw q at a

abbrev pub or_slot : Option FdSlot → Option FdSlot → Option FdSlot
or_slot none o = o
or_slot (some s) o = some s

or_slot_assoc : (a b c : Option FdSlot) → or_slot (or_slot a b) c ≡ or_slot a (or_slot b c)
or_slot_assoc none b c = refl
or_slot_assoc (some s) b c = refl

-- The last of these redirections that is one of descriptor `k`.
abbrev pub last_of : ℕ → List FdSlot → Option FdSlot
last_of k [] = none
last_of k (s ∷ log) = or_slot (last_of k log) (if s.fd == k then some s else none)

pub last_of-append :
    (k : ℕ) (log slots : List FdSlot)
    → last_of k (log ++ slots) ≡ or_slot (last_of k slots) (last_of k log)
last_of-append k [] slots = sym (or_slot-none (last_of k slots))
  where
    or_slot-none : (o : Option FdSlot) → or_slot o none ≡ o
    or_slot-none none = refl
    or_slot-none (some s) = refl
last_of-append k (s ∷ log) slots =
    ap (λ o. or_slot o (if s.fd == k then some s else none)) (last_of-append k log slots)
    ∙ or_slot_assoc (last_of k slots) (last_of k log) (if s.fd == k then some s else none)

-- A redirection is the one in force for its descriptor.
pub fdmap_set-last_of :
    (m : FdMap) (fd order : ℕ) (info : FdInfo) (k : ℕ)
    → fdmap_get (fdmap_set m fd order info) k
      ≡ or_slot (last_of k (record { fd = fd; info = info; order = order } ∷ [])) (fdmap_get m k)
fdmap_set-last_of m fd order info k = elim (Bool-cases (fd == k)) [
  | inl same ↦ fdmap_get-fdmap_set m fd order info k ∙ rw same refl
  | inr other ↦ fdmap_get-fdmap_set m fd order info k ∙ rw other refl
]

-- Whether a slot is among these.
abbrev pub IsIn : FdSlot → FdMap → Type 0
IsIn s [] = ⊥
IsIn s (t ∷ m) = (s ≡ t) ⊎ IsIn s m

-- A descriptor of the line copies one whose redirection stands later on the line.
pub record Clashes (m slots : FdMap) : Type 0 where
  pub slot : FdSlot
  pub source : FdSlot
  pub slot_in : IsIn slot slots
  pub source_in : IsIn source m
  pub copies : slot.info.mode ≡ mode_dup
  pub copied : source.fd ≡ slot.info.dup_fd
  pub later : slot.order < source.order

is_dup_lem : (mode : FdMode) → is_dup mode ≡ true → mode ≡ mode_dup
is_dup_lem mode_dup h = refl
is_dup_lem mode_null h = cc
is_dup_lem mode_pipe h = cc
is_dup_lem mode_inherit h = cc
is_dup_lem mode_file h = cc

is_later_lem :
    (o : Option FdSlot) (order : ℕ)
    → is_later o order ≡ true
    → (src : FdSlot) × (o ≡ some src) × (order < src.order)
unfolding is_later
is_later_lem none order h = cc
is_later_lem (some src) order h = (src, refl, ground arith)

fdmap_get-IsIn : (m : FdMap) (k : ℕ) (s : FdSlot) → fdmap_get m k ≡ some s → IsIn s m × (s.fd ≡ k)
unfolding fdmap_get
fdmap_get-IsIn [] k s h = cc
fdmap_get-IsIn (t ∷ m) k s h = elim (Bool-cases (t.fd == k)) [
  | inl same ↦ let q : s ≡ t = ground arith in (inl q, ap (λ (u : FdSlot). u.fd) q ∙ ground arith)
  | inr other ↦ let (held, at) = fdmap_get-IsIn m k s (ground arith) in (inr held, at)
]

IsIn-AllSlots : (P : FdSlot → Type 0) (m : FdMap) (s : FdSlot) → IsIn s m → AllSlots P m → P s
IsIn-AllSlots P [] s h a = absurd h
IsIn-AllSlots P (t ∷ m) s (inl q) a = subst P (sym q) a.0
IsIn-AllSlots P (t ∷ m) s (inr h) a = IsIn-AllSlots P m s h a.1

IsIn-fdmap_get : (m : FdMap) (s : FdSlot) → IsDistinct m → IsIn s m → fdmap_get m s.fd ≡ some s
unfolding fdmap_get
IsIn-fdmap_get [] s d h = absurd h
IsIn-fdmap_get (t ∷ m) s d (inl q) =
    let same : (t.fd == s.fd) ≡ true = ap (λ (u : FdSlot). t.fd == u.fd) q ∙ ground arith in
    rw same (ap some (sym q))
IsIn-fdmap_get (t ∷ m) s d (inr h) =
    let apart : s.fd ≢ t.fd = IsIn-AllSlots (λ u. u.fd ≢ t.fd) m s h d.0 in
    let other : (t.fd == s.fd) ≡ false = ground arith in rw other (IsIn-fdmap_get m s d.1 h)

dup_order_from-Clashes : (m slots : FdMap) → dup_order_from m slots ≡ false → Clashes m slots
unfolding dup_order_from
dup_order_from-Clashes m [] h = cc
dup_order_from-Clashes m (s ∷ slots) h =
    elim (Bool-cases (is_dup s.info.mode && is_later (fdmap_get m s.info.dup_fd) s.order)) [
      | inl bad ↦
          let (src, found, after) =
            is_later_lem (fdmap_get m s.info.dup_fd) s.order (ground arith) in
          let (held, at) = fdmap_get-IsIn m s.info.dup_fd src found in
          record {
            slot = s;
            source = src;
            slot_in = inl refl;
            source_in = held;
            copies = is_dup_lem s.info.mode (ground arith);
            copied = at;
            later = after;
          }
      | inr good ↦
          let rest = dup_order_from-Clashes m slots (ground arith) in
          record {
            slot = rest.slot;
            source = rest.source;
            slot_in = inr rest.slot_in;
            source_in = rest.source_in;
            copies = rest.copies;
            copied = rest.copied;
            later = rest.later;
          }
    ]

Clashes-dup_order_from :
    (m slots : FdMap) (s : FdSlot)
    → IsIn s slots
    → is_dup s.info.mode ≡ true
    → is_later (fdmap_get m s.info.dup_fd) s.order ≡ true
    → dup_order_from m slots ≡ false
unfolding dup_order_from
Clashes-dup_order_from m [] s h dup late = absurd h
Clashes-dup_order_from m (t ∷ slots) s (inl q) dup late =
    rw
      (
        ap (λ (u : FdSlot). is_dup u.info.mode) (sym q) ∙ dup,
        ap (λ (u : FdSlot). is_later (fdmap_get m u.info.dup_fd) u.order) (sym q) ∙ late,
      )
      refl
Clashes-dup_order_from m (t ∷ slots) s (inr h) dup late =
    let rest = Clashes-dup_order_from m slots s h dup late in ground arith

-- Where no descriptor has two slots, `check_dup_order` refuses a line exactly when some slot copies
-- a descriptor whose slot was redirected strictly later.
pub check_dup_order_iff : (m : FdMap) → IsDistinct m → (check_dup_order m ≡ false) ↔ Clashes m m
unfolding check_dup_order is_later
check_dup_order_iff m d = (
  dup_order_from-Clashes m m,
  λ c.
      let found : fdmap_get m c.slot.info.dup_fd ≡ some c.source =
        ap (fdmap_get m) (sym c.copied) ∙ IsIn-fdmap_get m c.source d c.source_in in
      let dup : is_dup c.slot.info.mode ≡ true = ap is_dup c.copies in
      let late : is_later (fdmap_get m c.slot.info.dup_fd) c.slot.order ≡ true =
        ap (λ o. is_later o c.slot.order) found ∙ ground (arith, c.later) in
      Clashes-dup_order_from m m c.slot c.slot_in dup late,
)
