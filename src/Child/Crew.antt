-- ===== src/Child/Crew.antt =====
-- What holds of a container of children after any events.
use yapara_c.Prelude.{
  ℕ, ◌<◌, Bool, true, false, List, [], ◌∷◌, some, ◌≡◌, refl, ap, sym, subst, arith, leb, ◌==◌,
  if◌then◌else◌, length, length-append, length-set, get_elem?, set, Bool-cases, inl, inr, ◌⊎◌,
}
use yapara_c.Child.Defs.{Child}
use yapara_c.Child.Events as Life
use yapara_c.Child.Placed.{Step-IsPlaced}
use yapara_c.Child.Container.{
  Container, container_new, signal_ready, finish_child, settle_event, add_child, add_children,
  offer_slots, ready_idle_cb,
}
use yapara_c.Child.Slots.{tally-append}
use yapara_c.Child.Crowd.{
  tally-set, AreIndexed-append, AreIndexed-set, get_elem?-AreIndexed, count_done, IsConsistent,
  signal_ready-IsConsistent,
}
use yapara_c.Child.Settled.{known, finish_child-IsSettled}

-- The events: one of libuv's or the application's at a child, a child that yc_child_new puts in, the
-- idle callback with the children that it is given, and the signal of yc_child_container_run.
abbrev AreNew : List Child → Type 0
AreNew [] = Unit
AreNew (child ∷ children) = (child.done_emitted ≡ false) × AreNew children

abbrev AllNew : List (List Child) → Type 0
AllNew [] = Unit
AllNew (children ∷ calls) = AreNew children × AllNew calls

pub data Step : Container → Container → Type 0 where
  event :
      (i : ℕ) (child after : Child) (c : Container)
      → get_elem? c.children i ≡ some child
      → Life.Step child after
      → Step c (settle_event i after c)
  added : (child : Child) (c : Container) → child.done_emitted ≡ false → Step c (add_child child c)
  idle :
      (calls : List (List Child)) (c : Container)
      → c.ready_idle_started ≡ true
      → AllNew calls
      → Step c (ready_idle_cb calls c)
  run : (c : Container) → Step c (signal_ready c)

-- What a new container comes to, with its limits.
pub data Reaches (max_children max_done : ℕ) (has_ready : Bool) : Container → Type 0 where
  start :
      Reaches max_children max_done has_ready
        (record (container_new max_children has_ready) { max_done_children = max_done })
  next :
      {c after : Container}
      → Reaches max_children max_done has_ready c
      → Step c after
      → Reaches max_children max_done has_ready after

settle_done :
    (i : ℕ) (after : Child) (c : Container)
    → after.done_emitted ≡ true
    → settle_event i after c ≡ finish_child after (record c { children = set c.children i after })
unfolding settle_event
settle_done i after c emitted =
    let stored : Container = record c { children = set c.children i after } in
    ap (λ (b : Bool). if b then finish_child after stored else stored) emitted

settle_waiting :
    (i : ℕ) (after : Child) (c : Container)
    → after.done_emitted ≡ false
    → settle_event i after c ≡ record c { children = set c.children i after }
unfolding settle_event
settle_waiting i after c waiting =
    let stored : Container = record c { children = set c.children i after } in
    ap (λ (b : Bool). if b then finish_child after stored else stored) waiting

settle_event-IsConsistent :
    (i : ℕ) (child after : Child) (c : Container)
    → get_elem? c.children i ≡ some child
    → Life.Step child after
    → IsConsistent c
    → IsConsistent (settle_event i after c)
settle_event-IsConsistent i child after c at step ok =
    let (index, pids) = Step-IsPlaced step in
    elim (Bool-cases after.done_emitted) [
      | inl emitted ↦
          let (settled, woken) = finish_child-IsSettled i child after c at index pids emitted ok in
          subst IsConsistent (sym (settle_done i after c emitted)) settled.consistent
      | inr waiting ↦ rw (settle_waiting i after c waiting) (record {
        room = ok.room;
        bounded = rw (length-set c.children i after) ok.bounded;
        indexed =
            AreIndexed-set 0 i c.children after
              (omega (arith, index, get_elem?-AreIndexed 0 i c.children child at ok.indexed))
              ok.indexed;
        live = ground (arith, tally-set count_done i c.children child after at, ok.live);
        retained = ok.retained;
      })
    ]

add_child-IsConsistent :
    (child : Child) (c : Container)
    → child.done_emitted ≡ false
    → IsConsistent c
    → IsConsistent (add_child child c)
unfolding add_child
add_child-IsConsistent child c fresh ok =
    elim (Bool-cases (leb c.max_children (length c.children))) [
      | inl full ↦ rw full ok
      | inr room ↦
          let placed : Child = record child { container_index = length c.children } in
          rw room (record {
            room = ok.room;
            bounded = ground (arith, length-append c.children (placed ∷ []));
            indexed = AreIndexed-append 0 c.children placed ok.indexed (omega arith);
            live = ground (arith, tally-append count_done c.children (placed ∷ []), ok.live);
            retained = ok.retained;
          })
    ]

add_children-IsConsistent :
    (children : List Child) (c : Container)
    → AreNew children
    → IsConsistent c
    → IsConsistent (add_children children c)
unfolding add_children
add_children-IsConsistent [] c fresh ok = ok
add_children-IsConsistent (child ∷ children) c (fresh, others) ok =
    add_children-IsConsistent children (add_child child c) others
      (add_child-IsConsistent child c fresh ok)

offer_slots-IsConsistent :
    (calls : List (List Child)) (c : Container)
    → AllNew calls
    → IsConsistent c
    → IsConsistent (offer_slots calls c)
unfolding offer_slots
offer_slots-IsConsistent [] c fresh ok = ok
offer_slots-IsConsistent (started ∷ calls) c (fresh, others) ok =
    let after = add_children started c in
    let mid = add_children-IsConsistent started c fresh ok in
    let last = offer_slots-IsConsistent calls after others mid in
    elim (Bool-cases (leb c.max_children (length c.children))) [
      | inl full ↦ rw full ok
      | inr room ↦ elim (Bool-cases (length after.children == length c.children)) [
        | inl declined ↦ rw (room, declined) mid
        | inr took ↦ rw (room, took) last
      ]
    ]

Step-IsConsistent : {c after : Container} → Step c after → IsConsistent c → IsConsistent after
unfolding ready_idle_cb
Step-IsConsistent (event i child after c at step) ok =
    settle_event-IsConsistent i child after c at step ok
Step-IsConsistent (added child c fresh) ok = add_child-IsConsistent child c fresh ok
Step-IsConsistent (idle calls c started fresh) ok =
    offer_slots-IsConsistent calls (record c { ready_idle_started = false }) fresh
      (record {
        room = ok.room;
        bounded = ok.bounded;
        indexed = ok.indexed;
        live = ok.live;
        retained = ok.retained;
      })
Step-IsConsistent (run c) ok = signal_ready-IsConsistent c ok

-- Whatever happens to a container from yc_child_container_new on, it has no more children than it
-- may, each at the index in the array that the child has noted, none of them done; and it retains no
-- more that are done than it should.
pub Reaches-IsConsistent :
    {max_children max_done : ℕ} {has_ready : Bool} {c : Container}
    → Reaches max_children max_done has_ready c
    → IsConsistent c
unfolding container_new
Reaches-IsConsistent start = record {
  room = ground arith;
  bounded = ground arith;
  indexed = tt;
  live = refl;
  retained = omega arith;
}
Reaches-IsConsistent (next reached step) = Step-IsConsistent step (Reaches-IsConsistent reached)

-- Whatever happened to a container before: where an event leaves a child done, yc_child_new can put
-- another in; no child is lost, each is in the array, retained or freed; and the application is
-- going to be asked for the next one, if it has the callback.
pub settle_event-asks :
    {max_children max_done : ℕ} {has_ready : Bool} {c : Container} (i : ℕ) (child after : Child)
    → Reaches max_children max_done has_ready c
    → get_elem? c.children i ≡ some child
    → Life.Step child after
    → after.done_emitted ≡ true
    → (length (settle_event i after c).children < (settle_event i after c).max_children)
      × ((pid : ℕ) → known pid (settle_event i after c) ≡ known pid c)
      × (((settle_event i after c).ready_idle_started ≡ true) ⊎ (c.has_ready ≡ false))
settle_event-asks {c = c} i child after reached at step emitted =
    let (index, pids) = Step-IsPlaced step in
    let (settled, woken) =
      finish_child-IsSettled i child after c at index pids emitted (Reaches-IsConsistent reached) in
    rw (settle_done i after c emitted) (settled.room, settled.accounted, woken)
