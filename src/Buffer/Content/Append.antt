-- ===== src/Buffer/Content/Append.antt =====
-- What `yc_buffer_append` and its kin do to the bytes of a buffer.
use yapara_c.Prelude.{
  ◌⊎◌, false, ℕ, ◌+◌, ◌≤◌, ◌<◌, min, List, [], ◌∷◌, ◌++◌, ◌≡◌, ◌≢◌, refl, ap, sym, ◌∙◌, arith, ◌==◌,
  ==_iff, Bool-cases, inl, inr, length, take, drop, length-take, length-drop, length-append,
  take-append-drop, append-nil, append_assoc,
}
use yapara_c.Prelude.Loop.{hang, ok, Decreases, Steps, run-total}
use yapara_c.Buffer.Defs.{
  Bytes, Fragment, Buffer, Pool, avail, last_avail, fill_last, new_native_fragment, make_room,
  AppendState, append_step, round_avail, rounds_left, append, add_size,
}
use yapara_c.Buffer.Content.{chain_bytes, content, IsChain, IsValid, chain_bytes-append}

-- A chain whose last fragment may still be empty.
abbrev IsOpen : List Fragment → Type 0
IsOpen [] = ⊥
IsOpen (f ∷ []) = f.buf_start + length f.bytes ≤ f.buf_max_size
IsOpen (f ∷ g ∷ frags) =
    (f.bytes ≢ []) × (f.buf_start + length f.bytes ≤ f.buf_max_size) × IsOpen (g ∷ frags)

-- `memcpy` behind the last fragment appends to the buffer.
fill_last-bytes :
    (frags : List Fragment) (new : Bytes)
    → IsOpen frags
    → chain_bytes (fill_last frags new) ≡ chain_bytes frags ++ new
unfolding fill_last
fill_last-bytes [] new h = absurd h
fill_last-bytes (f ∷ []) new h = rw (append-nil (f.bytes ++ new), append-nil f.bytes)
fill_last-bytes (f ∷ g ∷ frags) new h =
    ap (λ l. f.bytes ++ l) (fill_last-bytes (g ∷ frags) new h.2) ∙ sym (append_assoc f.bytes _ new)

append-ne-nil : (xs ys : Bytes) → ys ≢ [] → xs ++ ys ≢ []
append-ne-nil [] ys h = h
append-ne-nil (x ∷ xs) ys h = λ q. cc

fill_last-IsChain :
    (frags : List Fragment) (new : Bytes)
    → IsOpen frags
    → new ≢ []
    → length new ≤ last_avail frags
    → IsChain (fill_last frags new)
unfolding fill_last last_avail avail
fill_last-IsChain [] new h ne room = absurd h
fill_last-IsChain (f ∷ []) new h ne room =
    (append-ne-nil f.bytes new ne, omega (arith, length-append f.bytes new), tt)
fill_last-IsChain (f ∷ g ∷ frags) new h ne room =
    (h.0, h.1, fill_last-IsChain (g ∷ frags) new h.2 ne room)

IsChain→IsOpen : (frags : List Fragment) → IsChain frags → last_avail frags ≢ 0 → IsOpen frags
unfolding last_avail
IsChain→IsOpen [] h a = a refl
IsChain→IsOpen (f ∷ []) h a = h.1
IsChain→IsOpen (f ∷ g ∷ frags) h a = (h.0, h.1, IsChain→IsOpen (g ∷ frags) h.2 a)

IsOpen-append :
    (frags : List Fragment) (f : Fragment)
    → IsChain frags
    → f.buf_start + length f.bytes ≤ f.buf_max_size
    → IsOpen (frags ++ f ∷ [])
IsOpen-append [] f h k = k
IsOpen-append (g ∷ []) f h k = (h.0, h.1, k)
IsOpen-append (g ∷ x ∷ frags) f h k = (h.0, h.1, IsOpen-append (x ∷ frags) f h.2 k)

last_avail-append : (frags : List Fragment) (f : Fragment) → last_avail (frags ++ f ∷ []) ≡ avail f
unfolding last_avail
last_avail-append [] f = refl
last_avail-append (g ∷ []) f = refl
last_avail-append (g ∷ x ∷ frags) f = last_avail-append (x ∷ frags) f

nil_of_length : (xs : Bytes) → length xs ≡ 0 → xs ≡ []
nil_of_length [] h = refl
nil_of_length (x ∷ xs) h = absurd (omega arith)

fill_last-nil : (frags : List Fragment) → fill_last frags [] ≡ frags
unfolding fill_last
fill_last-nil [] = refl
fill_last-nil (f ∷ []) = ap (λ l. record f { bytes = l } ∷ []) (append-nil f.bytes)
fill_last-nil (f ∷ g ∷ frags) = ap (◌∷◌ f) (fill_last-nil (g ∷ frags))

module _ (frag_cap : ℕ) (positive : 0 < frag_cap) where
  -- After `make_room` the last fragment has room, and the bytes are the same.
  make_room_lem :
      (frags : List Fragment) (pool : Pool)
      → IsChain frags
      → let room = (make_room frag_cap frags pool).0 in
        IsOpen room × (0 < last_avail room) × (chain_bytes room ≡ chain_bytes frags)
  unfolding make_room new_native_fragment avail
  make_room_lem frags pool h = elim (Bool-cases (last_avail frags == 0)) [
    | inl full ↦
        let new : Fragment = new_native_fragment frag_cap in
        rw full (
          IsOpen-append frags new h (omega arith),
          omega (arith, last_avail-append frags new),
          chain_bytes-append frags (new ∷ []) ∙ append-nil (chain_bytes frags),
        )
    | inr room ↦ rw room (IsChain→IsOpen frags h (ground arith), ground arith, refl)
  ]

  new_avail :
      (frags : List Fragment) → last_avail (frags ++ new_native_fragment frag_cap ∷ []) ≡ frag_cap
  unfolding new_native_fragment avail
  new_avail frags = last_avail-append frags (new_native_fragment frag_cap) ∙ omega arith

  -- A round adds a fragment to one that is full, or has room to fill.
  abbrev RoundCases : List Fragment → List Fragment → Type 0
  RoundCases frags room =
      ((round_avail frag_cap frags ≡ 0)
        × (last_avail frags ≡ 0)
        × (room ≡ frags ++ new_native_fragment frag_cap ∷ []))
      ⊎ ((round_avail frag_cap frags ≡ last_avail room) × (0 < last_avail room))

  round_cases :
      (frags : List Fragment) (pool : Pool) → RoundCases frags (make_room frag_cap frags pool).0
  unfolding make_room round_avail
  round_cases [] pool = unfold last_avail in inr (refl, omega (arith, new_avail []))
  round_cases (f ∷ frags) pool = elim (Bool-cases (last_avail (f ∷ frags) == 0)) [
    | inl full ↦ rw full (inl (ground arith, ground arith, refl))
    | inr free ↦ rw free (inr (refl, ground arith))
  ]

  append_step-less :
      (frags : List Fragment) (left : Bytes) (pool : Pool)
      → length left ≢ 0
      → let room = (make_room frag_cap frags pool).0 in
        let n = min (round_avail frag_cap frags) (length left) in
        rounds_left (record {
          frags = fill_last room (take n left);
          left = drop n left;
          pool = (make_room frag_cap frags pool).1;
        })
        < rounds_left (record { frags = frags; left = left; pool = pool })
  unfolding rounds_left
  append_step-less frags left pool h =
      let room = (make_room frag_cap frags pool).0 in
      elim (round_cases frags pool) [
        | inl (none_free, full, grown) ↦
            let nothing : min (round_avail frag_cap frags) (length left) ≡ 0 =
              omega (arith, none_free) in
            let free : last_avail (fill_last room []) ≡ frag_cap =
              ap last_avail (fill_last-nil room ∙ grown) ∙ new_avail frags in
            rw nothing (ground (arith, free, full))
        | inr (same, free) ↦
            ground
              (arith, same, free, length-drop (min (round_avail frag_cap frags) (length left)) left)
      ]

  append_step-Decreases : Decreases rounds_left (append_step frag_cap)
  unfolding append_step
  append_step-Decreases s s' h = ground (arith, append_step-less s.frags s.left s.pool)

  append_step-live : (s : AppendState) → append_step frag_cap s ≢ hang
  unfolding append_step
  append_step-live s = ground arith

  -- Between rounds the last fragment may be empty, if bytes are left.
  abbrev IsGrowing : List Fragment → Bytes → Type 0
  IsGrowing frags left = IsChain frags ⊎ (IsOpen frags × (0 < last_avail frags) × (length left ≢ 0))

  -- One round moves bytes from `data` to the chain.
  abbrev Moved : Bytes → AppendState → Type 0
  Moved all s = IsGrowing s.frags s.left × (chain_bytes s.frags ++ s.left ≡ all)

  room_lem :
      (frags : List Fragment) (pool : Pool) (left : Bytes)
      → IsGrowing frags left
      → let room = (make_room frag_cap frags pool).0 in
        IsOpen room × (chain_bytes room ≡ chain_bytes frags)
  room_lem frags pool left (inl chain) =
      let (opened, free, same) = make_room_lem frags pool chain in (opened, same)
  room_lem frags pool left (inr (opened, free, more)) =
      let has_room : (last_avail frags == 0) ≡ false = ground (arith, free) in
      unfold make_room in rw has_room (opened, refl)

  append_round :
      (s : AppendState)
      → IsGrowing s.frags s.left
      → length s.left ≢ 0
      → let room = (make_room frag_cap s.frags s.pool).0 in
        let n = min (round_avail frag_cap s.frags) (length s.left) in
        IsGrowing (fill_last room (take n s.left)) (drop n s.left)
        × (chain_bytes (fill_last room (take n s.left)) ++ drop n s.left
            ≡ chain_bytes s.frags ++ s.left)
  append_round s g more =
      let room = (make_room frag_cap s.frags s.pool).0 in
      let n = min (round_avail frag_cap s.frags) (length s.left) in
      let (opened, same) = room_lem s.frags s.pool s.left g in
      (
        elim (round_cases s.frags s.pool) [
          | inl (none_free, full, grown) ↦
              let nothing : n ≡ 0 = omega (arith, none_free) in
              rw (nothing, fill_last-nil room)
                (inr (opened, omega (arith, ap last_avail grown, new_avail s.frags), more))
          | inr (avail_same, free) ↦ inl (
              fill_last-IsChain room (take n s.left) opened
                (λ q. omega (arith, ap length q, length-take n s.left, avail_same, free))
                (omega (arith, length-take n s.left, avail_same)))
        ],
        rw (fill_last-bytes room (take n s.left) opened, append_assoc, take-append-drop, same) refl,
      )

  append_step-Steps :
      (all : Bytes) (s : AppendState)
      → Moved all s
      → Steps (Moved all) (λ t. Moved all t × (t.left ≡ [])) (append_step frag_cap s)
  append_step-Steps all s m = elim (Bool-cases (length s.left == 0)) [
    | inl done ↦
        unfold append_step in rw done (m, nil_of_length s.left ((==_iff (length s.left) 0).0 done))
    | inr more ↦
        let (chain, bytes) = append_round s m.0 (ground arith) in
        unfold append_step in rw more (chain, bytes ∙ m.1)
  ]

  ended-IsChain :
      (frags : List Fragment) (left : Bytes) → IsGrowing frags left → left ≡ [] → IsChain frags
  ended-IsChain frags left (inl chain) e = chain
  ended-IsChain frags left (inr (opened, free, more)) e = absurd (more (ap length e))

  -- `yc_buffer_append` returns, with the data behind the buffer's bytes and the buffer valid.
  pub append_lem :
      (new : Bytes) (b : Buffer) (pool : Pool)
      → IsValid b
      → (b' : Buffer) × (pool' : Pool) × (append frag_cap new b pool ≡ ok (b', pool'))
        × (content b' ≡ content b ++ new)
        × IsValid b'
  unfolding append
  append_lem new b pool v =
      let (r, returned, ended) =
        run-total rounds_left (append_step frag_cap) (Moved (content b ++ new))
          (λ t. Moved (content b ++ new) t × (t.left ≡ [])) append_step-Decreases
          (append_step-Steps (content b ++ new))
          (record { frags = b.frags; left = new; pool = pool }) (inl v.chain, refl) in
      let bytes : chain_bytes r.frags ≡ content b ++ new =
        sym (append-nil (chain_bytes r.frags))
        ∙ ap (λ l. chain_bytes r.frags ++ l) (sym ended.1)
        ∙ ended.0.1 in
      (
        record { size = add_size b.size (length new); frags = r.frags },
        r.pool,
        rw returned,
        bytes,
        record {
          chain = ended-IsChain r.frags r.left ended.0.0 ended.1;
          size = omega (arith, v.size, ap length bytes, length-append (content b) new);
        },
      )
