-- ===== src/Ports/Generator/Allocation.antt =====
-- What getNextScopePort of business/adapter/port_generator.go hands out.
use polar_db_stack_common.Common.{
  ◌≡◌, true, false, List, [], Option, some, arith, All, Bool-cases, inl, inr,
}
use polar_db_stack_common.Common.Int.{ℤ, pos, ◌+ℤ◌, ◌≤ℤ◌, ◌<ℤ◌, int_half, int_laws}
use polar_db_stack_common.Common.Text.{Text, text_mem, text_eq_refl}
use polar_db_stack_common.Common.Decimal.{itoa, atoi-itoa_nonneg}
use polar_db_stack_common.Common.Dict.{lookup-insert}
use polar_db_stack_common.Common.Outcome.{ok, err}
use polar_db_stack_common.Ports.PortRange.{PortRanges, ranges_contain}
use polar_db_stack_common.Ports.PortRange.Bounds.{IsValid, InRange}
use polar_db_stack_common.Ports.PortRange.Reserved.{ranges_contain_iff}
use polar_db_stack_common.Ports.GoSet.{GoSet, new_go_set}
use polar_db_stack_common.Ports.Cluster.{ConfigMap, Cluster}
use polar_db_stack_common.Ports.Usage.{get_all_node_used_port, get_all_used_port, add_nodes}
use polar_db_stack_common.Ports.Usage.Collected.{
  IsPort, to_int32-port, lists_port, configmap_port-collected,
}
use polar_db_stack_common.Ports.Generator.Scan.{NoneBetween, Found, scan-selected, scan-none}
use polar_db_stack_common.Ports.Generator.Reads.{
  chosen_at, exhausted_at, begin_of, end_of, from_of, select_of, stored, is_free-some, scan-free,
  select_port-scan, select_port-scan_none,
}
use polar_db_stack_common.Ports.Generator.Start.{
  StartsAt, from_of-StartsAt, start_port-cases, end-IsInt, from-IsInt, rounds-Fits, up_to_end,
  reached,
}
use polar_db_stack_common.Ports.Generator.{
  Keys, all_used, is_free, rounds_between, last_given, read_ranges, get_next_scope_port,
}

-- The nodes' set of used ports, where the node list was read.
used_nodes :
    (c : Cluster) (nodes : List Text) (used : Option GoSet)
    → c.nodes ≡ ok (some nodes)
    → get_all_node_used_port c ≡ ok used
    → used ≡ some (add_nodes c nodes [])
unfolding get_all_node_used_port get_all_used_port new_go_set
used_nodes c nodes used n e = ground arith

search-Found :
    (cm_key : Text) (cm : ConfigMap) (prs : PortRanges) (used : Option GoSet) (p : ℤ)
    → IsValid prs.port_range
    → select_of cm_key cm prs used ≡ ok p
    → Found
        (is_free prs used)
        (from_of cm_key cm prs)
        (rounds_between (from_of cm_key cm prs) (end_of prs))
        p
unfolding select_of
search-Found cm_key cm prs used p v e =
    scan-selected (is_free prs used) _ _ p
      (rounds-Fits _ _ (from-IsInt cm_key cm prs v) (end-IsInt prs v))
      (select_port-scan prs used _ _ p e)

module _ (keys : Keys) (cm_key range_key : Text) (c : Cluster) (cm : ConfigMap) (prs : PortRanges)
    (cm_read : c.port_config_map ≡ ok cm)
    (ranges_read : read_ranges keys range_key cm ≡ ok prs) where
  pub allocated_inside :
      (p : ℤ) (cm' : ConfigMap)
      → get_next_scope_port keys cm_key range_key c ≡ ok (p, cm')
      → (ranges_contain prs p ≡ true) × (cm' ≡ stored cm_key cm p) × (c.accepts cm' ≡ true)
  unfolding select_of
  allocated_inside p cm' e =
      let (used, _, chosen, kept, taken) =
        chosen_at keys cm_key range_key c cm prs cm_read ranges_read p cm' e in
      let free = scan-free _ _ _ p (select_port-scan prs used _ _ p chosen) in
      let (_, _, inside, _) = is_free-some prs used p free in (inside, kept, taken)

  -- A port between 1 and 65535 that is handed out is in the port usage of no node whose config map
  -- could be read.
  pub allocated_unused :
      (p : ℤ) (cm' usage : ConfigMap) (nodes : List Text) (node : Text)
      → get_next_scope_port keys cm_key range_key c ≡ ok (p, cm')
      → IsPort p
      → c.nodes ≡ ok (some nodes)
      → text_mem node nodes ≡ true
      → c.port_usage node ≡ ok usage
      → lists_port p usage.contents ≡ false
  unfolding select_of
  allocated_unused p cm' usage nodes node e i n m u =
      let (used, used_read, chosen, _, _) =
        chosen_at keys cm_key range_key c cm prs cm_read ranges_read p cm' e in
      let free = scan-free _ _ _ p (select_port-scan prs used _ _ p chosen) in
      let (found, same, _, unused) = is_free-some prs used p free in
      let all_nodes = used_nodes c nodes used n used_read in
      elim (Bool-cases (lists_port p usage.contents)) [
        | inl listed ↦
            let taken = configmap_port-collected c nodes node usage p [] m u listed in
            ground (arith, to_int32-port p i)
        | inr free_there ↦ free_there
      ]

  pub allocated_first :
      (p : ℤ) (cm' : ConfigMap)
      → IsValid prs.port_range
      → get_next_scope_port keys cm_key range_key c ≡ ok (p, cm')
      → (used : Option GoSet) × (get_all_node_used_port c ≡ ok used)
        × (from_of cm_key cm prs <ℤ p)
        × (p ≤ℤ end_of prs)
        × NoneBetween (is_free prs used) (from_of cm_key cm prs) p
        × StartsAt cm_key cm prs (from_of cm_key cm prs)
  allocated_first p cm' valid e =
      let (used, used_read, chosen, _, _) =
        chosen_at keys cm_key range_key c cm prs cm_read ranges_read p cm' e in
      let f = search-Found cm_key cm prs used p valid chosen in
      (
        used,
        used_read,
        f.above,
        up_to_end (from_of cm_key cm prs) (end_of prs) p f.above f.within,
        f.first,
        from_of-StartsAt cm_key cm prs valid,
      )

  -- Over a valid range and valid reserved ones, a port that is handed out lies in the configured range,
  -- between its first and its last port, and in no reserved range; what is stored is the config map that
  -- was read with the port as the new last one, and the API server has taken it.
  pub allocated_in_ranges :
      (p : ℤ) (cm' : ConfigMap)
      → IsValid prs.port_range
      → All IsValid prs.reserved_port_ranges
      → get_next_scope_port keys cm_key range_key c ≡ ok (p, cm')
      → InRange prs.port_range p
        × All (λ r. ¬ InRange r p) prs.reserved_port_ranges
        × (cm' ≡ stored cm_key cm p)
        × (c.accepts cm' ≡ true)
  allocated_in_ranges p cm' valid valids e =
      let (inside, kept, taken) = allocated_inside p cm' e in
      let (_, _, above, below, _, _) = allocated_first p cm' valid e in
      let from = from-IsInt cm_key cm prs valid in
      let end = end-IsInt prs valid in
      let (within, outside) = (ranges_contain_iff prs p valid valids (omega int_laws)).0 inside in
      (within, outside, kept, taken)

  -- When the search reports that all ports are used, no port after the start and up to the end of
  -- a valid range is free.
  pub exhausted_none_free :
      (q : ℤ)
      → IsValid prs.port_range
      → get_next_scope_port keys cm_key range_key c ≡ err (all_used q)
      → (used : Option GoSet) × (get_all_node_used_port c ≡ ok used)
        × NoneBetween (is_free prs used) (from_of cm_key cm prs) (end_of prs +ℤ pos 1)
  unfolding select_of
  exhausted_none_free q v e =
      let (used, used_read, chosen) =
        exhausted_at keys cm_key range_key c cm prs cm_read ranges_read q e in
      let from = from_of cm_key cm prs in
      let h =
        scan-none (is_free prs used) _ from q
          (rounds-Fits _ _ (from-IsInt cm_key cm prs v) (end-IsInt prs v))
          (select_port-scan_none prs used _ _ q chosen) in
      (used, used_read, λ r l u. h r l (reached from (end_of prs) r l u))

  -- Over a valid range, the lower bound itself is never handed out, unless the remembered port is
  -- below it.
  pub lower_bound_skipped :
      (p : ℤ) (cm' : ConfigMap)
      → IsValid prs.port_range
      → begin_of prs ≤ℤ last_given cm_key cm (begin_of prs)
      → get_next_scope_port keys cm_key range_key c ≡ ok (p, cm')
      → begin_of prs <ℤ p
  lower_bound_skipped p cm' valid low e =
      let (_, _, after, _, _, _) = allocated_first p cm' valid e in
      elim (start_port-cases (begin_of prs) (end_of prs) (last_given cm_key cm (begin_of prs))) [
        | inl at_begin ↦ rw at_begin at after
        | inr (at_last, _) ↦
            let a : last_given cm_key cm (begin_of prs) <ℤ p = rw at_last at after in omega int_laws
      ]

-- What the next call starts from.
pub last_given-stored :
    (cm_key : Text) (cm : ConfigMap) (p b : ℤ)
    → pos 0 ≤ℤ p
    → p <ℤ pos int_half
    → last_given cm_key (stored cm_key cm p) b ≡ p
unfolding last_given
last_given-stored cm_key cm p b h k = ground (
  arith,
  lookup-insert cm_key cm_key (itoa p) cm.contents,
  text_eq_refl cm_key,
  atoi-itoa_nonneg p h k,
)
