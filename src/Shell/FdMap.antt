-- ===== src/Shell/FdMap.antt =====
-- The redirections of a line, keyed by the child's fd (`FdMap` of src/yc-shell.c).
pub mod Laws
use yapara_c.Prelude.{
  ℕ, Bool, true, false, List, [], ◌∷◌, Option, none, some, ltb, ◌==◌, if◌then◌else◌,
}
use yapara_c.Shell.Types.{FdMode, mode_dup, FdInfo}

pub record FdSlot : Type 0 where
  pub fd : ℕ
  pub info : FdInfo
  pub order : ℕ

abbrev pub FdMap : Type 0
FdMap = List FdSlot

unfoldable pub fdmap_get : FdMap → ℕ → Option FdSlot
fdmap_get [] fd = none
fdmap_get (s ∷ m) fd = if s.fd == fd then some s else fdmap_get m fd

-- `fdmap_set`, and the caller's writes to the slot that it returns. The new slot is added at the
-- end; that of an fd seen before is reset where it stands.
unfoldable pub fdmap_set : FdMap → ℕ → ℕ → FdInfo → FdMap
fdmap_set [] fd order info = record { fd = fd; info = info; order = order } ∷ []
fdmap_set (s ∷ m) fd order info =
    if s.fd == fd
    then record { fd = fd; info = info; order = order } ∷ m
    else s ∷ fdmap_set m fd order info

abbrev pub is_dup : FdMode → Bool
is_dup mode_dup = true
is_dup _ = false

-- Whether `src` was redirected after the slot that copies it.
unfoldable pub is_later : Option FdSlot → ℕ → Bool
is_later none order = false
is_later (some src) order = ltb order src.order

-- `check_dup_order` over the slots from one on; `m` is the whole map. The result says whether
-- the check passes.
unfoldable pub dup_order_from : FdMap → FdMap → Bool
dup_order_from m [] = true
dup_order_from m (s ∷ slots) =
    if is_dup s.info.mode
    then (if is_later (fdmap_get m s.info.dup_fd) s.order then false else dup_order_from m slots)
    else dup_order_from m slots

unfoldable pub check_dup_order : FdMap → Bool
check_dup_order m = dup_order_from m m
