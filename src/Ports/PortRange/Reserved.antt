-- ===== src/Ports/PortRange/Reserved.antt =====
-- `PortRanges.Contains` of business/adapter/port_range.go against its specification.
use polar_db_stack_common.Common.{
  ◌≡◌, ◌↔◌, refl, true, false, List, [], ◌∷◌, arith, All, Bool-cases, inl, inr,
}
use polar_db_stack_common.Common.Int.{ℤ, IsInt}
use polar_db_stack_common.Ports.PortRange.{
  PortRange, PortRanges, contains, is_reserved, ranges_contain,
}
use polar_db_stack_common.Ports.PortRange.Bounds.{IsValid, InRange, contains_iff}

is_reserved_iff :
    (rs : List PortRange) (p : ℤ)
    → All IsValid rs
    → IsInt p
    → (is_reserved rs p ≡ false) ↔ All (λ r. ¬ InRange r p) rs
unfolding is_reserved
is_reserved_iff [] p v i = (λ _. tt, λ _. refl)
is_reserved_iff (r ∷ rs) p v i =
    let c = contains_iff r p v.0 i in
    let ih = is_reserved_iff rs p v.1 i in
    (
      (λ e. ((λ h. ground (arith, c.1 h)), ih.0 (ground arith))),
      λ h. elim (Bool-cases (contains r p)) [
        | inl hit ↦ absurd (h.0 (c.0 hit))
        | inr miss ↦ rw miss (ih.1 h.1)
      ],
    )

-- Over ranges that are valid, a port is offered exactly if it lies in the main range and in none
-- of the reserved ones.
pub ranges_contain_iff :
    (prs : PortRanges) (p : ℤ)
    → IsValid prs.port_range
    → All IsValid prs.reserved_port_ranges
    → IsInt p
    → (ranges_contain prs p ≡ true)
      ↔ (InRange prs.port_range p × All (λ r. ¬ InRange r p) prs.reserved_port_ranges)
unfolding ranges_contain
ranges_contain_iff prs p v vs i =
    let c = contains_iff prs.port_range p v i in
    let r = is_reserved_iff prs.reserved_port_ranges p vs i in
    (
      (λ e. elim (Bool-cases (is_reserved prs.reserved_port_ranges p)) [
        | inl hit ↦ absurd (ground arith)
        | inr miss ↦ (c.0 (ground arith), r.0 miss)
      ]),
      λ h. rw (r.1 h.1) (c.1 h.0),
    )
