-- ===== src/Ports/Generator/Retry.antt =====
-- GetNextClusterExternalPort and CheckPortUsed of business/adapter/port_generator.go, and two calls
-- of the generator in a row.
use polar_db_stack_common.Common.{
  ◌≡◌, ◌≢◌, refl, ap, ◌∙◌, ◌↔◌, ◌⊎◌, inl, inr, true, List, [], ◌∷◌, arith, Bool-cases,
}
use polar_db_stack_common.Common.Int.{ℤ, pos, ◌≤ℤ◌, ◌<ℤ◌, int_half, int_laws}
use polar_db_stack_common.Common.Text.{Text, codes, text_eq, text_eq_iff}
use polar_db_stack_common.Common.Outcome.{Outcome, ok, err}
use polar_db_stack_common.Ports.PortRange.{PortRanges, ranges_contain, contains as range_contains}
use polar_db_stack_common.Ports.PortRange.Bounds.{IsValid}
use polar_db_stack_common.Ports.GoSet.{contains}
use polar_db_stack_common.Ports.Cluster.{ApiError, message, ConfigMap, Cluster}
use polar_db_stack_common.Ports.Generator.{
  Keys, PortError, api, bad_range, all_used, can_not_update, gave_up, not_in_range, occupied,
  nil_dereference, read_ranges, get_next_scope_port, attempt, after_attempt,
  get_next_cluster_external_port, check_port_used, start_port,
}
use polar_db_stack_common.Ports.Generator.Reads.{
  begin_of, end_of, from_of, select_of, stored, chosen_at, scan-free, is_free-some,
  select_port-scan,
}
use polar_db_stack_common.Ports.Generator.Start.{end-IsInt}
use polar_db_stack_common.Ports.Generator.Allocation.{
  allocated_inside, allocated_first, last_given-stored,
}

-- What `is_can_not_update` tests, of the end of an attempt.
after_attempt_iff :
    (o again : Outcome PortError (ℤ × ConfigMap)) (r : ℤ × ConfigMap)
    → (after_attempt o again ≡ ok r) ↔ (
        (o ≡ ok r)
        ⊎ (((o ≡ err can_not_update)
              ⊎ ((e : ApiError) × (o ≡ err (api e)) × (message e ≡ codes "CAN_NOT_UPDATE")))
            × (again ≡ ok r)))
after_attempt_iff (ok x) again r = ground arith
after_attempt_iff (err (api e)) again r =
    elim (Bool-cases (text_eq (message e) (codes "CAN_NOT_UPDATE"))) [
      | inl hit ↦
          let same = (text_eq_iff (message e) (codes "CAN_NOT_UPDATE")).0 hit in
          (
            (λ h. inr (inr (e, refl, same), ground (arith, hit, h))),
            λ h. elim h [ inl granted ↦ cc | inr (conflict, a) ↦ rw hit a ],
          )
      | inr miss ↦ (
        (λ h. absurd (ground (arith, miss, h))),
        λ h. elim h [
          | inl granted ↦ cc
          | inr (inl conflict, a) ↦ cc
          | inr (inr (f, is, says), a) ↦
              let same : e ≡ f = cc in
              absurd (
                ground (
                  arith,
                  miss,
                  same,
                  (text_eq_iff (message e) (codes "CAN_NOT_UPDATE")).1 (ap message same ∙ says),
                ))
        ],
      )
    ]
after_attempt_iff (err can_not_update) again r = ground arith
after_attempt_iff (err (bad_range e)) again r = ground arith
after_attempt_iff (err (all_used p)) again r = ground arith
after_attempt_iff (err gave_up) again r = ground arith
after_attempt_iff (err (not_in_range p)) again r = ground arith
after_attempt_iff (err (occupied p)) again r = ground arith
after_attempt_iff (err nil_dereference) again r = ground arith

module _ (keys : Keys) (cm_key range_key : Text) where
  abbrev pub Grants : Cluster → ℤ × ConfigMap → Type 0
  Grants c r = get_next_scope_port keys cm_key range_key c ≡ ok r

  -- The update of the config map met a conflict: the error's text is CAN_NOT_UPDATE.
  abbrev pub Conflicts : Cluster → Type 0
  Conflicts c =
      (get_next_scope_port keys cm_key range_key c ≡ err can_not_update)
      ⊎ ((e : ApiError) × (get_next_scope_port keys cm_key range_key c ≡ err (api e))
          × (message e ≡ codes "CAN_NOT_UPDATE"))

  attempt-first :
      (c : Cluster) (later : List Cluster) (r : ℤ × ConfigMap)
      → (attempt keys cm_key range_key (c ∷ later) ≡ ok r)
        ↔ (Grants c r ⊎ (Conflicts c × (attempt keys cm_key range_key later ≡ ok r)))
  unfolding attempt
  attempt-first c later r =
      after_attempt_iff (get_next_scope_port keys cm_key range_key c)
        (attempt keys cm_key range_key later) r

  attempt-none : (r : ℤ × ConfigMap) → attempt keys cm_key range_key [] ≢ ok r
  unfolding attempt
  attempt-none r e = cc

  -- Three attempts are made: the call gives a port exactly if the first gives it, or the second after a
  -- conflict of the first one's update, or the third after conflicts of both; a conflict is an error
  -- whose text is CAN_NOT_UPDATE.
  pub external_port_iff :
      (c₁ c₂ c₃ : Cluster) (r : ℤ × ConfigMap)
      → (get_next_cluster_external_port keys cm_key range_key c₁ c₂ c₃ ≡ ok r)
        ↔ (Grants c₁ r ⊎ (Conflicts c₁ × Grants c₂ r) ⊎ (Conflicts c₁ × Conflicts c₂ × Grants c₃ r))
  unfolding get_next_cluster_external_port
  external_port_iff c₁ c₂ c₃ r = ground (
    arith,
    attempt-first c₁ (c₂ ∷ c₃ ∷ []) r,
    attempt-first c₂ (c₃ ∷ []) r,
    attempt-first c₃ [] r,
    attempt-none r,
  )

  attempt-again :
      (c : Cluster) (later : List Cluster)
      → Conflicts c
      → attempt keys cm_key range_key (c ∷ later) ≡ attempt keys cm_key range_key later
  unfolding attempt
  attempt-again c later (inl conflict) = rw conflict refl
  attempt-again c later (inr (e, conflict, says)) =
      rw (conflict, (text_eq_iff (message e) (codes "CAN_NOT_UPDATE")).1 says) refl

  -- After three conflicts the call gives up.
  pub external_port_gives_up :
      (c₁ c₂ c₃ : Cluster)
      → Conflicts c₁
      → Conflicts c₂
      → Conflicts c₃
      → get_next_cluster_external_port keys cm_key range_key c₁ c₂ c₃ ≡ err gave_up
  unfolding get_next_cluster_external_port attempt
  external_port_gives_up c₁ c₂ c₃ h₁ h₂ h₃ =
      attempt-again c₁ (c₂ ∷ c₃ ∷ []) h₁ ∙ attempt-again c₂ (c₃ ∷ []) h₂ ∙ attempt-again c₃ [] h₃

-- The lower end of what the ranges contain.
ranges_contain-above :
    (prs : PortRanges) (p : ℤ) → ranges_contain prs p ≡ true → prs.port_range.base ≤ℤ p
unfolding ranges_contain range_contains
ranges_contain-above prs p h = ground arith

module _ (keys : Keys) (cm_key range_key : Text) (c : Cluster) (cm : ConfigMap) (prs : PortRanges)
    (cm_read : c.port_config_map ≡ ok cm)
    (ranges_read : read_ranges keys range_key cm ≡ ok prs) where
  -- A port that the generator hands out passes its own check at the same moment.
  pub allocated_passes_check :
      (p : ℤ) (cm' : ConfigMap)
      → get_next_scope_port keys cm_key range_key c ≡ ok (p, cm')
      → check_port_used keys p range_key c ≡ ok tt
  unfolding check_port_used select_of contains
  allocated_passes_check p cm' e =
      let (used, used_read, chosen, _, _) =
        chosen_at keys cm_key range_key c cm prs cm_read ranges_read p cm' e in
      let free = scan-free _ _ _ p (select_port-scan prs used _ _ p chosen) in
      let (found, same, inside, unused) = is_free-some prs used p free in ground arith

  from-stored :
      (p : ℤ)
      → pos 0 ≤ℤ p
      → p <ℤ pos int_half
      → p <ℤ end_of prs
      → from_of cm_key (stored cm_key cm p) prs ≡ p
  unfolding start_port
  from-stored p h k l = rw (last_given-stored cm_key cm p (begin_of prs) h k) (ground arith)

  -- Over a valid range, with the stored config map the next call hands out a higher port, unless
  -- the last one was the end of the range: no port is given twice in a row before the range ends.
  pub next_port_higher :
      (c' : Cluster) (p p' : ℤ) (cm' cm'' : ConfigMap)
      → IsValid prs.port_range
      → get_next_scope_port keys cm_key range_key c ≡ ok (p, cm')
      → c'.port_config_map ≡ ok cm'
      → get_next_scope_port keys cm_key range_key c' ≡ ok (p', cm'')
      → p <ℤ end_of prs
      → p <ℤ p'
  unfolding read_ranges
  next_port_higher c' p p' cm' cm'' v e r e' l =
      let (inside, kept, _) =
        allocated_inside keys cm_key range_key c cm prs cm_read ranges_read p cm' e in
      let low = ranges_contain-above prs p inside in
      let base_nonneg = v.base_nonneg in
      let last = end-IsInt prs v in
      let (_, _, after, _, _, _) =
        allocated_first keys cm_key range_key c' (stored cm_key cm p) prs (rw (← kept) r)
          ranges_read p' cm'' v e' in
      rw (from-stored p (omega int_laws) (omega int_laws) l) at after
