-- ===== src/Placement/Selected.antt =====
-- Which nodes the requirements of business/adapter/pod_manager_base.go select.
use polar_db_stack_common.Common.{
  ◌≡◌, ◌↔◌, ◌⊎◌, inl, inr, refl, ap, ◌∙◌, Bool, true, false, ◌&&◌, List, [], ◌∷◌, ◌++◌, Option,
  none, some, all, arith, Bool-cases,
}
use polar_db_stack_common.Common.Text.{Text, text_eq, text_eq_iff, text_mem}
use polar_db_stack_common.Common.Outcome.{ok, >>=-eq-ok}
use polar_db_stack_common.Params.Slice.{contains_string}
use polar_db_stack_common.Placement.Affinity.{
  Requirement, in_values, not_in_values, does_not_exist, ControllerConf, hostname,
  hybrid_requirement, taint_requirement, target_requirement, build_pod_node_affinity,
}

-- A node's labels by their keys.
abbrev pub Labels : Type 0
Labels = Text → Option Text

-- Kubernetes' reading of the three operators.
pub record SelectorLaws (satisfies : Requirement → Labels → Bool) : Type 0 where
  pub in_law :
      (key : Text) (values : List Text) (labels : Labels)
      → (satisfies (in_values key values) labels ≡ true)
        ↔ ((value : Text) × (labels key ≡ some value) × (text_mem value values ≡ true))
  pub not_in_law :
      (key : Text) (values : List Text) (labels : Labels)
      → (satisfies (not_in_values key values) labels ≡ true)
        ↔ ((value : Text) → labels key ≡ some value → text_mem value values ≡ false)
  pub absent_law :
      (key : Text) (labels : Labels)
      → (satisfies (does_not_exist key) labels ≡ true) ↔ (labels key ≡ none)

all-append :
    {A : Type 0} (p : A → Bool) (xs ys : List A) → all p (xs ++ ys) ≡ (all p xs && all p ys)
all-append p [] ys = refl
all-append p (x ∷ xs) ys = ground (arith, all-append p xs ys)

-- A Boolean conjunction of four against what each part means.
four_iff :
    {P Q R S : Type 0} (a b c d : Bool) {whole : Bool}
    → whole ≡ (a && (b && (c && d)))
    → (a ≡ true) ↔ P
    → (b ≡ true) ↔ Q
    → (c ≡ true) ↔ R
    → (d ≡ true) ↔ S
    → (whole ≡ true) ↔ (P × Q × R × S)
four_iff a b c d e p q r s = (
  (λ h. (
    p.0 (ground (arith, e, h)),
    q.0 (ground (arith, e, h)),
    r.0 (ground (arith, e, h)),
    s.0 (ground (arith, e, h)),
  )),
  (λ h.
      let ha = p.1 h.0 in
      let hb = q.1 h.1 in
      let hc = r.1 h.2 in let hd = s.1 h.3 in ground (arith, e, ha, hb, hc, hd)),
)

module _ (satisfies : Requirement → Labels → Bool) (laws : SelectorLaws satisfies)
    (labels : Labels) where
  abbrev selects : List Requirement → Bool
  selects reqs = all (λ r. satisfies r labels) reqs

  hybrid-selects :
      (conf : ControllerConf)
      → (selects (hybrid_requirement conf) ≡ true) ↔ (
          (conf.hybrid_deployment ≡ true)
          ⊎ (conf.controller_node_label ≡ [])
          ⊎ (labels conf.controller_node_label ≡ none))
  hybrid-selects conf =
      let absent = laws.absent_law conf.controller_node_label labels in
      let empty = text_eq_iff conf.controller_node_label [] in
      elim (Bool-cases conf.hybrid_deployment) [
        | inl h ↦ ground (arith, h)
        | inr h ↦ elim (Bool-cases (text_eq conf.controller_node_label [])) [
          | inl k ↦ ground (arith, h, k, empty)
          | inr k ↦ ground (arith, h, k, empty, absent)
        ]
      ]

  taint-selects :
      (host : Text) (names : List Text)
      → labels hostname ≡ some host
      → (selects (taint_requirement names) ≡ true) ↔ (text_mem host names ≡ false)
  taint-selects host [] is = ground arith
  taint-selects host (name ∷ names) is =
      let law = laws.not_in_law hostname (name ∷ names) labels in
      (
        (λ h. law.0 (ground (arith, h)) host is),
        (λ h.
            let other = law.1 (λ value e.
              let same : value ≡ host = ground (arith, e, is) in
              ap (λ v. text_mem v (name ∷ names)) same ∙ h) in
            ground (arith, other)),
      )

  one-selects :
      (host target : Text)
      → labels hostname ≡ some host
      → (selects (in_values hostname (target ∷ []) ∷ []) ≡ true) ↔ (host ≡ target)
  one-selects host target is =
      let law = laws.in_law hostname (target ∷ []) labels in
      (
        (λ h.
            let (value, e, mem) = law.0 (ground (arith, h)) in
            let same : value ≡ target = (text_eq_iff value target).0 (ground (arith, mem)) in
            ground (arith, e, is, same)),
        (λ h.
            let other = law.1 (host, is, ground (arith, (text_eq_iff host target).1 h)) in
            ground (arith, other)),
      )

  target-selects :
      (host : Text) (names : List Text) (target : Text) (reqs : List Requirement)
      → labels hostname ≡ some host
      → target_requirement names target ≡ ok reqs
      → (selects reqs ≡ true) ↔ ((target ≡ []) ⊎ (host ≡ target))
  target-selects host names target reqs is built =
      let one = one-selects host target is in
      let empty = text_eq_iff target [] in
      elim (Bool-cases (text_eq target [])) [
        | inl h ↦ ground (arith, h, empty, built)
        | inr h ↦ elim (Bool-cases (contains_string names target none)) [
          | inl k ↦ absurd (ground (arith, h, k, built))
          | inr k ↦
              let only : reqs ≡ in_values hostname (target ∷ []) ∷ [] =
                ground (arith, h, k, built) in
              let by = ap selects only in ground (arith, by, one, h, empty)
        ]
      ]

  -- A node with a host name satisfies the requirements exactly where it is the target or none is given,
  -- it is no node of the controller unless the deployment is hybrid, it is not in the list of tainted
  -- nodes, and it is not under maintenance.
  pub affinity_selects_iff :
      (conf : ControllerConf) (maintain_label : Text) (taint : List Text) (target host : Text)
      (reqs : List Requirement)
      → labels hostname ≡ some host
      → build_pod_node_affinity (ok conf) maintain_label taint target ≡ ok reqs
      → (all (λ r. satisfies r labels) reqs ≡ true) ↔ (
          ((target ≡ []) ⊎ (host ≡ target))
          × ((conf.hybrid_deployment ≡ true)
              ⊎ (conf.controller_node_label ≡ [])
              ⊎ (labels conf.controller_node_label ≡ none))
          × (text_mem host taint ≡ false)
          × (labels maintain_label ≡ none))
  unfolding build_pod_node_affinity
  affinity_selects_iff conf maintain_label taint target host reqs is built =
      let (target_reqs, targets, rest) = >>=-eq-ok (target_requirement taint target) _ built in
      let hybrid = hybrid_requirement conf in
      let tainted = taint_requirement taint in
      let last = does_not_exist maintain_label ∷ [] in
      let whole : reqs ≡ target_reqs ++ (hybrid ++ (tainted ++ last)) = ground (arith, rest) in
      let split : selects reqs
          ≡ (selects target_reqs && (selects hybrid && (selects tainted && selects last))) =
        ap selects whole
        ∙ ground (
          arith,
          all-append (λ r. satisfies r labels) target_reqs (hybrid ++ (tainted ++ last)),
          all-append (λ r. satisfies r labels) hybrid (tainted ++ last),
          all-append (λ r. satisfies r labels) tainted last,
        ) in
      let t = target-selects host taint target target_reqs is targets in
      let h = hybrid-selects conf in
      let n = taint-selects host taint is in
      let m = laws.absent_law maintain_label labels in
      four_iff _ _ _ _ split t h n (ground (arith, m))
