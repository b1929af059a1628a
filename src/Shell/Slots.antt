-- ===== src/Shell/Slots.antt =====
-- The redirections of a parsed line, and the slots that they leave.
use yapara_c.Prelude.{
  ℕ, true, false, List, [], ◌∷◌, ◌++◌, ◌≡◌, ◌⊎◌, inl, inr, refl, sym, ap, ◌∙◌, subst, arith,
  Bool-cases, length,
}
use yapara_c.Prelude.Loop.{again, stop, Result, ok, run-inv, bind-eq-ok}
use yapara_c.Shell.Types.{Bytes, Failure, Environment}
use yapara_c.Shell.Chars.{is_redirect_start, skip_ifs}
use yapara_c.Shell.FdMap.{FdSlot, FdMap, fdmap_get, fdmap_set, check_dup_order}
use yapara_c.Shell.FdMap.Laws.{
  IsDistinct, Clashes, or_slot, last_of, last_of-append, fdmap_set-last_of, fdmap_set-IsDistinct,
  check_dup_order_iff,
}
use yapara_c.Shell.Redirect.{parse_redirect}
use yapara_c.Shell.Line.{
  LineState, bump, with_redirect, token_step, line_step, check_line, parse_line,
}
use yapara_c.Shell.Puts.{Puts, nothing_put, one_put, refused, lost, parse_redirect-Puts}

module _ (e : Environment) where
  -- The rounds of the loop of `parse_line` that lead to a state, with the redirections that they
  -- read: each is what `parse_redirect` makes of the line from there on, for a map with no slots.
  pub data Reads (cmdline : Bytes) : LineState → List FdSlot → Type 0 where
    at_start :
        Reads cmdline (record { p = cmdline; args = []; assigns = []; fdmap = []; order = 0 }) []
    redirection :
        {s s' : LineState} {q : Bytes} {log slots : List FdSlot}
        → Reads cmdline s log
        → is_redirect_start (skip_ifs s.p) ≡ true
        → parse_redirect e [] (bump s.order) (skip_ifs s.p) ≡ ok (q, slots)
        → line_step e s ≡ again s'
        → Reads cmdline s' (log ++ slots)
    word :
        {s s' : LineState} {log : List FdSlot}
        → Reads cmdline s log
        → is_redirect_start (skip_ifs s.p) ≡ false
        → line_step e s ≡ again s'
        → Reads cmdline s' log
    at_end :
        {s s' : LineState} {log : List FdSlot}
        → Reads cmdline s log
        → line_step e s ≡ stop s'
        → Reads cmdline s' log

  -- The slots are those of the last redirection of each descriptor.
  pub record IsTraced (cmdline : Bytes) (s : LineState) : Type 0 where
    pub redirections : List FdSlot
    pub read : Reads cmdline s redirections
    pub distinct : IsDistinct s.fdmap
    pub last : (k : ℕ) → fdmap_get s.fdmap k ≡ last_of k redirections

  with_redirect-Puts :
      (s s' : LineState) (r0 r : Result Failure (Bytes × FdMap))
      → Puts s.fdmap r0 r
      → with_redirect s r ≡ again s'
      → (q : Bytes) × (slots : List FdSlot) × (r0 ≡ ok (q, slots))
        × (IsDistinct s.fdmap → IsDistinct s'.fdmap)
        × ((k : ℕ) → fdmap_get s'.fdmap k ≡ or_slot (last_of k slots) (fdmap_get s.fdmap k))
  with_redirect-Puts s s' _ _ (nothing_put {q}) h =
      let same : s.fdmap ≡ s'.fdmap = cc in
      (q, [], refl, subst IsDistinct same, λ k. ap (λ m. fdmap_get m k) (sym same))
  with_redirect-Puts s s' _ _ (one_put {q} t) h =
      let same : fdmap_set s.fdmap t.fd t.order t.info ≡ s'.fdmap = cc in
      (
        q,
        t ∷ [],
        refl,
        λ d. subst IsDistinct same (fdmap_set-IsDistinct s.fdmap t.fd t.order t.info d),
        λ k. ap (λ m. fdmap_get m k) (sym same) ∙ fdmap_set-last_of s.fdmap t.fd t.order t.info k,
      )
  with_redirect-Puts s s' _ _ refused h = cc
  with_redirect-Puts s s' _ _ lost h = cc

  line_step-redirect :
      (s s' : LineState)
      → is_redirect_start (skip_ifs s.p) ≡ true
      → line_step e s ≡ again s'
      → with_redirect
          (record s { p = skip_ifs s.p })
          (parse_redirect e s.fdmap (bump s.order) (skip_ifs s.p))
        ≡ again s'
  unfolding line_step token_step
  line_step-redirect s s' starts h = ground arith

  line_step-word :
      (s s' : LineState)
      → is_redirect_start (skip_ifs s.p) ≡ false
      → line_step e s ≡ again s'
      → s'.fdmap ≡ s.fdmap
  unfolding line_step token_step
  line_step-word s s' plain h = ground arith

  line_step-end : (s s' : LineState) → line_step e s ≡ stop s' → s'.fdmap ≡ s.fdmap
  unfolding line_step token_step
  line_step-end s s' h = ground arith

  unmoved :
      (cmdline : Bytes) (s s' : LineState) (t : IsTraced cmdline s)
      → s'.fdmap ≡ s.fdmap
      → Reads cmdline s' t.redirections
      → IsTraced cmdline s'
  unmoved cmdline s s' t same read = record {
    redirections = t.redirections;
    read = read;
    distinct = subst IsDistinct (sym same) t.distinct;
    last = λ k. ap (λ m. fdmap_get m k) same ∙ t.last k;
  }

  line_step-IsTraced :
      (cmdline : Bytes) (s s' : LineState)
      → IsTraced cmdline s
      → (line_step e s ≡ again s') ⊎ (line_step e s ≡ stop s')
      → IsTraced cmdline s'
  line_step-IsTraced cmdline s s' t (inr h) =
      unmoved cmdline s s' t (line_step-end s s' h) (at_end t.read h)
  line_step-IsTraced cmdline s s' t (inl h) = elim (Bool-cases (is_redirect_start (skip_ifs s.p))) [
    | inl starts ↦
        let (q, slots, read, apart, put) =
          with_redirect-Puts (record s { p = skip_ifs s.p }) s' _ _
            (parse_redirect-Puts e s.fdmap (bump s.order) (skip_ifs s.p))
            (line_step-redirect s s' starts h) in
        record {
          redirections = t.redirections ++ slots;
          read = redirection t.read starts read h;
          distinct = apart t.distinct;
          last = λ k.
              put k
              ∙ ap (or_slot (last_of k slots)) (t.last k)
              ∙ sym (last_of-append k t.redirections slots);
        }
    | inr plain ↦ unmoved cmdline s s' t (line_step-word s s' plain h) (word t.read plain h)
  ]

  check_line-ok :
      (t s : LineState) → check_line e t ≡ ok s → (check_dup_order t.fdmap ≡ true) × (t ≡ s)
  unfolding check_line
  check_line-ok t s h = elim (Bool-cases (check_dup_order t.fdmap)) [
    | inl good ↦ (good, ground arith)
    | inr bad ↦ absurd (ground arith)
  ]

  -- Where a line parses, the slots are those of its last redirections, and none copies one
  -- redirected later.
  pub parse_line-slots :
      (cmdline : Bytes) (s : LineState)
      → parse_line e cmdline ≡ ok s
      → IsTraced cmdline s × ¬ Clashes s.fdmap s.fdmap
  unfolding parse_line fdmap_get
  parse_line-slots cmdline s h =
      let (t, looped, checked) = bind-eq-ok _ (check_line e) h in
      let (good, q) = check_line-ok t s checked in
      let first : IsTraced cmdline
          (record { p = cmdline; args = []; assigns = []; fdmap = []; order = 0 }) =
        record { redirections = []; read = at_start; distinct = tt; last = λ k. refl } in
      let traced : IsTraced cmdline t =
        run-inv (λ t. length t.p) (line_step e) (IsTraced cmdline) (line_step-IsTraced cmdline) _ t
          first looped in
      subst (λ (r : LineState). IsTraced cmdline r × ¬ Clashes r.fdmap r.fdmap) q
        (traced, λ c. let bad = (check_dup_order_iff t.fdmap traced.distinct).1 c in cc)
