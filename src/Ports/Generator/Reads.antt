-- ===== src/Ports/Generator/Reads.antt =====
-- What a call of getNextScopePort in business/adapter/port_generator.go has read when it hands out a
-- port, and when it finds all of them used.
use mathlib.Core.Path.{subst₂}
use polar_db_stack_common.Common.{
  ℕ, zero, suc, ◌≡◌, ◌≢◌, refl, ap, ◌∙◌, Bool, true, false, Option, none, some, arith, Bool-cases,
  inl, inr, if◌then◌else◌,
}
use polar_db_stack_common.Common.Int.{ℤ, pos, to_int32, int_add}
use polar_db_stack_common.Common.Text.{Text}
use polar_db_stack_common.Common.Decimal.{itoa}
use polar_db_stack_common.Common.Dict.{insert}
use polar_db_stack_common.Common.Outcome.{Outcome, ok, err, >>=-eq-ok, >>=-eq-err, ◌>>=◌}
use polar_db_stack_common.Ports.PortRange.{
  PortRanges, RangeError, ranges_contain, get_min_and_max_port,
}
use polar_db_stack_common.Ports.GoSet.{GoSet, has, contains}
use polar_db_stack_common.Ports.Cluster.{ApiError, ConfigMap, Cluster}
use polar_db_stack_common.Ports.Usage.{get_all_node_used_port}
use polar_db_stack_common.Ports.Generator.{
  Keys, PortError, all_used, can_not_update, is_free, scan, rounds_between, select_port, start_port,
  last_given, read_ranges, get_next_scope_port, of_api, of_range, parse_port_ranges,
}

-- One successful or exhausted search, with all that it read.
pub record Search (keys : Keys) (range_key : Text) (c : Cluster) : Type 0 where
  pub cm : ConfigMap
  pub prs : PortRanges
  pub used : Option GoSet
  pub cm_read : c.port_config_map ≡ ok cm
  pub ranges_read : read_ranges keys range_key cm ≡ ok prs
  pub used_read : get_all_node_used_port c ≡ ok used

-- The bounds of the search, and where it starts.
abbrev pub begin_of : PortRanges → ℤ
begin_of prs = (get_min_and_max_port prs).0

abbrev pub end_of : PortRanges → ℤ
end_of prs = (get_min_and_max_port prs).1

abbrev pub from_of : Text → ConfigMap → PortRanges → ℤ
from_of cm_key cm prs = start_port (begin_of prs) (end_of prs) (last_given cm_key cm (begin_of prs))

unfoldable pub select_of : Text → ConfigMap → PortRanges → Option GoSet → Outcome PortError ℤ
select_of cm_key cm prs used = select_port prs used (from_of cm_key cm prs) (end_of prs)

abbrev pub stored : Text → ConfigMap → ℤ → ConfigMap
stored cm_key cm p = record cm { contents = insert cm_key (itoa p) cm.contents }

abbrev pub update : Cluster → Text → ConfigMap → ℤ → Outcome PortError (ℤ × ConfigMap)
update c cm_key cm p =
    if c.accepts (stored cm_key cm p) then ok (p, stored cm_key cm p) else err can_not_update

pub update_ok :
    (c : Cluster) (cm_key : Text) (cm : ConfigMap) (q p : ℤ) (cm' : ConfigMap)
    → update c cm_key cm q ≡ ok (p, cm')
    → (q ≡ p) × (cm' ≡ stored cm_key cm p) × (c.accepts cm' ≡ true)
update_ok c cm_key cm q p cm' e = ground arith

pub of_api-eq_ok {ℓ} : {A : Type ℓ} (o : Outcome ApiError A) {a : A} → of_api o ≡ ok a → o ≡ ok a
of_api-eq_ok (ok b) e = cc
of_api-eq_ok (err x) e = cc

pub of_api-ne-all_used {ℓ} :
    {A : Type ℓ} (o : Outcome ApiError A) (q : ℤ) → of_api o ≢ err (all_used q)
of_api-ne-all_used (ok b) q e = cc
of_api-ne-all_used (err x) q e = cc

pub read_ranges-ne-all_used :
    (keys : Keys) (k : Text) (cm : ConfigMap) (q : ℤ) → read_ranges keys k cm ≢ err (all_used q)
unfolding read_ranges
read_ranges-ne-all_used keys k cm q = of_range-ne-all_used (parse_port_ranges _ _)
  where
    of_range-ne-all_used : (o : Outcome RangeError PortRanges) → of_range o ≢ err (all_used q)
    of_range-ne-all_used (ok b) e = cc
    of_range-ne-all_used (err x) e = cc

pub update-ne-all_used :
    (c : Cluster) (k : Text) (cm : ConfigMap) (p q : ℤ) → update c k cm p ≢ err (all_used q)
update-ne-all_used c k cm p q e = ground arith

pub exhausted_select :
    (m : Outcome PortError ℤ) (f : ℤ → Outcome PortError (ℤ × ConfigMap)) (q : ℤ)
    → ((p r : ℤ) → f p ≢ err (all_used r))
    → (m >>= f) ≡ err (all_used q)
    → m ≡ err (all_used q)
exhausted_select (ok p) f q ne e = absurd (ne p q e)
exhausted_select (err x) f q ne e = cc

module _ (keys : Keys) (cm_key range_key : Text) (c : Cluster) where
  pub Search-ok :
      (p : ℤ) (cm' : ConfigMap)
      → get_next_scope_port keys cm_key range_key c ≡ ok (p, cm')
      → (s : Search keys range_key c) × (select_of cm_key s.cm s.prs s.used ≡ ok p)
        × (cm' ≡ stored cm_key s.cm p)
        × (c.accepts cm' ≡ true)
  unfolding get_next_scope_port select_of
  Search-ok p cm' e =
      let (cm, e₁, f₁) = >>=-eq-ok _ _ e in
      let (prs, e₂, f₂) = >>=-eq-ok _ _ f₁ in
      let (used, e₃, f₃) = >>=-eq-ok _ _ f₂ in
      let (q, e₄, f₄) = >>=-eq-ok _ _ f₃ in
      let (same, kept, taken) = update_ok c cm_key cm q p cm' f₄ in
      (
        record {
          cm = cm;
          prs = prs;
          used = used;
          cm_read = of_api-eq_ok _ e₁;
          ranges_read = e₂;
          used_read = of_api-eq_ok _ e₃;
        },
        e₄ ∙ ap ok same,
        kept,
        taken,
      )

  -- A search that ends with "all used" has read the same things.
  pub Search-exhausted :
      (q : ℤ)
      → get_next_scope_port keys cm_key range_key c ≡ err (all_used q)
      → (s : Search keys range_key c) × (select_of cm_key s.cm s.prs s.used ≡ err (all_used q))
  unfolding get_next_scope_port select_of
  Search-exhausted q e =
      let (cm, e₁, f₁) = >>=-eq-err _ _ (of_api-ne-all_used c.port_config_map q) e in
      let (prs, e₂, f₂) = >>=-eq-err _ _ (read_ranges-ne-all_used keys range_key cm q) f₁ in
      let (used, e₃, f₃) = >>=-eq-err _ _ (of_api-ne-all_used (get_all_node_used_port c) q) f₂ in
      (
        record {
          cm = cm;
          prs = prs;
          used = used;
          cm_read = of_api-eq_ok _ e₁;
          ranges_read = e₂;
          used_read = of_api-eq_ok _ e₃;
        },
        exhausted_select _ (update c cm_key cm) q (update-ne-all_used c cm_key cm) f₃,
      )

-- A free port: what the test says.
pub is_free-some :
    (prs : PortRanges) (o : Option GoSet) (p : ℤ)
    → is_free prs o p ≡ true
    → (used : GoSet) × (o ≡ some used)
      × (ranges_contain prs p ≡ true)
      × (has (to_int32 p) used ≡ false)
unfolding contains
is_free-some prs none p e = cc
is_free-some prs (some used) p e = (used, refl, ground arith, ground arith)

pub scan-free : (free : ℤ → Bool) (r : ℕ) (n p : ℤ) → scan free r n ≡ (p, true) → free p ≡ true
unfolding scan
scan-free free zero n p e = cc
scan-free free (suc r) n p e = elim (Bool-cases (free (int_add n (pos 1)))) [
  | inl hit ↦ ground arith
  | inr miss ↦ scan-free free r (int_add n (pos 1)) p (ground arith)
]

pub selected_pair :
    (t : ℤ × Bool) (p : ℤ) → (if t.1 then ok t.0 else err (all_used t.0)) ≡ ok p → t ≡ (p, true)
selected_pair (r, true) p e = cc
selected_pair (r, false) p e = cc

pub exhausted_pair :
    (t : ℤ × Bool) (q : ℤ)
    → (if t.1 then ok t.0 else err (all_used t.0)) ≡ err (all_used q)
    → t ≡ (q, false)
exhausted_pair (r, true) q e = cc
exhausted_pair (r, false) q e = cc

pub select_port-scan :
    (prs : PortRanges) (used : Option GoSet) (n m p : ℤ)
    → select_port prs used n m ≡ ok p
    → scan (is_free prs used) (rounds_between n m) n ≡ (p, true)
unfolding select_port
select_port-scan prs used n m p e = selected_pair _ p e

pub select_port-scan_none :
    (prs : PortRanges) (used : Option GoSet) (n m q : ℤ)
    → select_port prs used n m ≡ err (all_used q)
    → scan (is_free prs used) (rounds_between n m) n ≡ (q, false)
unfolding select_port
select_port-scan_none prs used n m q e = exhausted_pair _ q e

-- The same with the config map and the ranges that the call reads.
module _ (keys : Keys) (cm_key range_key : Text) (c : Cluster) (cm : ConfigMap) (prs : PortRanges)
    (cm_read : c.port_config_map ≡ ok cm)
    (ranges_read : read_ranges keys range_key cm ≡ ok prs) where
  same_reads : (s : Search keys range_key c) → (s.cm ≡ cm) × (s.prs ≡ prs)
  same_reads s =
      let a = s.cm_read in
      let b = s.ranges_read in let e : s.cm ≡ cm = ground arith in (e, same_ranges s.cm s.prs e b)
    where
      same_ranges :
          (x : ConfigMap) (y : PortRanges) → x ≡ cm → read_ranges keys range_key x ≡ ok y → y ≡ prs
      same_ranges x y e b = cc

  pub chosen_at :
      (p : ℤ) (cm' : ConfigMap)
      → get_next_scope_port keys cm_key range_key c ≡ ok (p, cm')
      → (used : Option GoSet) × (get_all_node_used_port c ≡ ok used)
        × (select_of cm_key cm prs used ≡ ok p)
        × (cm' ≡ stored cm_key cm p)
        × (c.accepts cm' ≡ true)
  chosen_at p cm' e =
      let (s, chosen, kept, taken) = Search-ok keys cm_key range_key c p cm' e in
      let (a, b) = same_reads s in
      (
        s.used,
        s.used_read,
        subst₂ (λ x y. select_of cm_key x y s.used ≡ ok p) a b chosen,
        kept ∙ ap (λ x. stored cm_key x p) a,
        taken,
      )

  pub exhausted_at :
      (q : ℤ)
      → get_next_scope_port keys cm_key range_key c ≡ err (all_used q)
      → (used : Option GoSet) × (get_all_node_used_port c ≡ ok used)
        × (select_of cm_key cm prs used ≡ err (all_used q))
  exhausted_at q e =
      let (s, chosen) = Search-exhausted keys cm_key range_key c q e in
      let (a, b) = same_reads s in
      (
        s.used,
        s.used_read,
        subst₂ (λ x y. select_of cm_key x y s.used ≡ err (all_used q)) a b chosen,
      )
