-- ===== src/Ports/Generator/Start.antt =====
-- Where the search of getNextScopePort in business/adapter/port_generator.go starts and ends.
use polar_db_stack_common.Common.{
  ◌≡◌, ◌⊎◌, refl, Option, none, some, arith, Bool-cases, Option-cases, inl, inr,
}
use polar_db_stack_common.Common.Int.{
  ℤ, pos, ◌+ℤ◌, ◌-ℤ◌, ◌≤ℤ◌, ◌<ℤ◌, IsInt, int_half, int_laws, leb_ℤ, int_add-eq, int_sub-eq,
  parts_disjoint,
}
use polar_db_stack_common.Common.Text.{Text}
use polar_db_stack_common.Common.Decimal.{itoa, atoi, atoi-IsInt, atoi-itoa_nonneg}
use polar_db_stack_common.Common.Dict.{lookup}
use polar_db_stack_common.Ports.PortRange.{PortRanges, get_min_and_max_port}
use polar_db_stack_common.Ports.PortRange.Bounds.{IsValid}
use polar_db_stack_common.Ports.Cluster.{ConfigMap}
use polar_db_stack_common.Ports.Generator.Scan.{Fits}
use polar_db_stack_common.Ports.Generator.{rounds_between, start_port, last_given}
use polar_db_stack_common.Ports.Generator.Reads.{begin_of, end_of, from_of}

-- The rounds reach exactly the upper bound.
pub rounds-reach : (n m : ℤ) → n ≤ℤ m → n +ℤ pos (rounds_between n m) ≡ m
rounds-reach n m h = omega (int_laws, parts_disjoint (m -ℤ n))

pub rounds-none : (n m : ℤ) → m <ℤ n → rounds_between n m ≡ 0
rounds-none n m h = omega (int_laws, parts_disjoint (m -ℤ n))

pub last_given-IsInt :
    (cm_key : Text) (cm : ConfigMap) (b : ℤ) → IsInt b → IsInt (last_given cm_key cm b)
unfolding last_given
last_given-IsInt cm_key cm b h =
    of_text (elim (lookup cm_key cm.contents) [ none ↦ itoa b | some s ↦ s ])
  where
    of_text : (s : Text) → IsInt (elim (atoi s) [ none ↦ b | some p ↦ p ])
    of_text s = elim (Option-cases (atoi s)) [
      | inl bad ↦ ground arith
      | inr (z, e) ↦ ground (arith, atoi-IsInt s z e)
    ]

pub start_port-cases : (b m p : ℤ) → (start_port b m p ≡ b) ⊎ ((start_port b m p ≡ p) × (p <ℤ m))
unfolding start_port
start_port-cases b m p = elim (Bool-cases (leb_ℤ m p)) [
  | inl past ↦ inl (rw past)
  | inr within ↦ inr (rw within, ground arith)
]

-- With a valid range the bounds are those of the range.
pub end-eq :
    (prs : PortRanges)
    → IsValid prs.port_range
    → end_of prs ≡ prs.port_range.base +ℤ prs.port_range.size -ℤ pos 1
unfolding get_min_and_max_port
end-eq prs v =
    let a = v.base_nonneg in
    let b = v.size_nonneg in
    let e = v.end_fits in
    rw (int_add-eq prs.port_range.base prs.port_range.size (omega int_laws))
      (int_sub-eq (prs.port_range.base +ℤ prs.port_range.size) (pos 1) (omega int_laws))

pub begin-eq : (prs : PortRanges) → begin_of prs ≡ prs.port_range.base
unfolding get_min_and_max_port
begin-eq prs = refl

pub begin-IsInt : (prs : PortRanges) → IsValid prs.port_range → IsInt (begin_of prs)
begin-IsInt prs v =
    let a = v.base_nonneg in
    let b = v.size_nonneg in let e = v.end_fits in rw (begin-eq prs) (omega int_laws)

pub end-IsInt : (prs : PortRanges) → IsValid prs.port_range → IsInt (end_of prs)
end-IsInt prs v =
    let a = v.base_nonneg in
    let b = v.size_nonneg in let e = v.end_fits in rw (end-eq prs v) (omega int_laws)

pub from-IsInt :
    (cm_key : Text) (cm : ConfigMap) (prs : PortRanges)
    → IsValid prs.port_range
    → IsInt (from_of cm_key cm prs)
from-IsInt cm_key cm prs v =
    let b = begin-IsInt prs v in
    elim (start_port-cases (begin_of prs) (end_of prs) (last_given cm_key cm (begin_of prs))) [
      | inl at_begin ↦ rw at_begin b
      | inr (at_last, _) ↦ rw at_last (last_given-IsInt cm_key cm (begin_of prs) b)
    ]

-- The search between two `int` values runs over `int` values.
pub rounds-Fits : (n m : ℤ) → IsInt n → IsInt m → Fits n (rounds_between n m)
rounds-Fits n m h k = omega (int_laws, parts_disjoint (m -ℤ n))

pub up_to_end : (n m p : ℤ) → n <ℤ p → p ≤ℤ n +ℤ pos (rounds_between n m) → p ≤ℤ m
up_to_end n m p a w = omega (int_laws, parts_disjoint (m -ℤ n))

pub reached : (n m q : ℤ) → n <ℤ q → q <ℤ m +ℤ pos 1 → q <ℤ n +ℤ pos (rounds_between n m) +ℤ pos 1
reached n m q l u = omega (int_laws, parts_disjoint (m -ℤ n))

-- The last port of a range.
abbrev pub last_port_of : PortRanges → ℤ
last_port_of prs = prs.port_range.base +ℤ prs.port_range.size -ℤ pos 1

-- The port that the entry holds, if it holds a number.
abbrev pub remembered : Text → ConfigMap → Option ℤ
remembered cm_key cm = elim (lookup cm_key cm.contents) [ none ↦ none | some s ↦ atoi s ]

-- What the start of a search is: the remembered port below the end of the range, and else the lower
-- bound.
abbrev pub StartsAt : Text → ConfigMap → PortRanges → ℤ → Type 0
StartsAt cm_key cm prs from =
    ((p : ℤ) × (remembered cm_key cm ≡ some p) × (p <ℤ last_port_of prs) × (from ≡ p))
    ⊎ ((p : ℤ) × (remembered cm_key cm ≡ some p)
        × (last_port_of prs ≤ℤ p)
        × (from ≡ prs.port_range.base))
    ⊎ ((remembered cm_key cm ≡ none) × (from ≡ prs.port_range.base))

last_given-missing :
    (cm_key : Text) (cm : ConfigMap) (b : ℤ)
    → pos 0 ≤ℤ b
    → b <ℤ pos int_half
    → remembered cm_key cm ≡ none
    → last_given cm_key cm b ≡ b
unfolding last_given
last_given-missing cm_key cm b h k e = elim (Option-cases (lookup cm_key cm.contents)) [
  | inl missing ↦ ground (arith, missing, atoi-itoa_nonneg b h k)
  | inr (s, is) ↦ ground (arith, is, e)
]

last_given-remembered :
    (cm_key : Text) (cm : ConfigMap) (b p : ℤ)
    → remembered cm_key cm ≡ some p
    → last_given cm_key cm b ≡ p
unfolding last_given
last_given-remembered cm_key cm b p e = elim (Option-cases (lookup cm_key cm.contents)) [
  | inl missing ↦ ground (arith, missing, e)
  | inr (s, is) ↦ ground (arith, is, e)
]

pub from_of-StartsAt :
    (cm_key : Text) (cm : ConfigMap) (prs : PortRanges)
    → IsValid prs.port_range
    → StartsAt cm_key cm prs (from_of cm_key cm prs)
unfolding start_port
from_of-StartsAt cm_key cm prs v =
    let a = v.base_nonneg in
    let b = v.size_nonneg in
    let e = v.end_fits in
    let ends = end-eq prs v in
    let begins = begin-eq prs in
    elim (Option-cases (remembered cm_key cm)) [
      | inl missing ↦
          let is = last_given-missing cm_key cm prs.port_range.base a (omega int_laws) missing in
          elim (Bool-cases (leb_ℤ (last_port_of prs) prs.port_range.base)) [
            | inl l ↦ inr (inr (missing, rw (ends, begins, is, l) refl))
            | inr l ↦ inr (inr (missing, rw (ends, begins, is, l) refl))
          ]
      | inr (p, was) ↦
          let is = last_given-remembered cm_key cm prs.port_range.base p was in
          elim (Bool-cases (leb_ℤ (last_port_of prs) p)) [
            | inl l ↦ inr (inl (p, was, ground arith, rw (ends, begins, is, l) refl))
            | inr l ↦ inl (p, was, ground arith, rw (ends, begins, is, l) refl)
          ]
    ]
