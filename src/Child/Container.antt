-- ===== src/Child/Container.antt =====
-- The container of the children, `YcChildContainer` of src/yc-child.c.
use yapara_c.Prelude.{
  ℕ, ◌-◌, Bool, true, false, not, ◌||◌, List, [], ◌∷◌, ◌++◌, Option, none, some, leb, ◌==◌,
  if◌then◌else◌, length, get_elem?, set, take,
}
use yapara_c.Child.Defs.{Child}

-- `YcChildContainer`, without the loop; `n_children` and `n_done_children` are the lengths of the
-- lists, and `freed` logs the children that were given to `child_free`.
pub record Container : Type 0 where
  pub max_children : ℕ
  pub children : List Child
  pub max_done_children : ℕ
  pub done_children : List Child
  pub has_ready : Bool
  pub ready_idle_started : Bool
  pub freed : List Child

-- `yc_child_container_new`
unfoldable pub container_new : ℕ → Bool → Container
container_new max_children has_ready = record {
  max_children = if max_children == 0 then 1 else max_children;
  children = [];
  max_done_children = 0;
  done_children = [];
  has_ready = has_ready;
  ready_idle_started = false;
  freed = [];
}

-- `container_signal_ready`
unfoldable pub signal_ready : Container → Container
signal_ready c =
    if not c.has_ready || (c.ready_idle_started || leb c.max_children (length c.children))
    then c
    else record c { ready_idle_started = true }

-- `container_retain_done_child`: what the loop frees, and what it leaves.
unfoldable pub trim_done : ℕ → List Child → List Child × List Child
trim_done max [] = ([], [])
trim_done max (child ∷ children) =
    let (freed, left) = trim_done max children in
    if leb max (length (child ∷ children)) then (child ∷ freed, left) else ([], child ∷ children)

unfoldable pub retain_done_child : Child → Container → Container
unfolding trim_done
retain_done_child child c =
    let (freed, left) = trim_done c.max_done_children c.done_children in
    if c.max_done_children == 0
    then record c { freed = c.freed ++ child ∷ [] }
    else record c { freed = c.freed ++ freed; done_children = left ++ child ∷ [] }

-- How `child_check_done` takes a child out of the array: the last one comes into its place.
unfoldable pub fill_slot : ℕ → Option Child → List Child → List Child
fill_slot i none children = children
fill_slot i (some last) children = set children i (record last { container_index = i })

unfoldable pub remove_child : ℕ → List Child → List Child
unfolding fill_slot
remove_child i children =
    take (length children - 1) (fill_slot i (get_elem? children (length children - 1)) children)

-- The rest of `child_check_done`, after done().
unfoldable pub finish_child : Child → Container → Container
unfolding remove_child retain_done_child signal_ready
finish_child child c = signal_ready (
    retain_done_child child (record c { children = remove_child child.container_index c.children }))

-- An event at the child in this place, which leaves this child.
unfoldable pub settle_event : ℕ → Child → Container → Container
unfolding finish_child
settle_event i after c =
    let stored : Container = record c { children = set c.children i after } in
    if after.done_emitted then finish_child after stored else stored

-- How `yc_child_new` puts its child in, unless the container is full.
unfoldable pub add_child : Child → Container → Container
add_child child c = if leb c.max_children (length c.children) then c else record c {
  children = c.children ++ record child { container_index = length c.children } ∷ [];
}

unfoldable pub add_children : List Child → Container → Container
unfolding add_child
add_children [] c = c
add_children (child ∷ children) c = add_children children (add_child child c)

-- `container_ready_idle_cb`; the children that each call of ready_to_spawn() starts are given.
unfoldable pub offer_slots : List (List Child) → Container → Container
unfolding add_children
offer_slots [] c = c
offer_slots (started ∷ calls) c =
    let after = add_children started c in
    let rest = offer_slots calls after in
    if leb c.max_children (length c.children)
    then c
    else (if length after.children == length c.children then after else rest)

unfoldable pub ready_idle_cb : List (List Child) → Container → Container
unfolding offer_slots
ready_idle_cb calls c = offer_slots calls (record c { ready_idle_started = false })
