-- ===== src/Ports/Tests.antt =====
-- Runs of the port allocation of business/adapter: a range of four ports, of which one is reserved and
-- one is in use on the only node.
use polar_db_stack_common.Common.{
  ◌≡◌, ◌≢◌, ◌↔◌, ◌⊎◌, inl, refl, Bool, true, false, [], ◌∷◌, Option, none, some, arith, All,
}
use polar_db_stack_common.Common.Int.{
  pos, int_laws, ◌≤ℤ◌, ◌<ℤ◌, ◌+ℤ◌, to_int32, int_add, int_sub, wrap_int, ◌-ℤ◌,
}
use polar_db_stack_common.Common.Text.{Text, codes, trim_space, split_byte}
use polar_db_stack_common.Common.Decimal.{atoi, itoa}
use polar_db_stack_common.Common.Outcome.{ok, err}
use polar_db_stack_common.Ports.PortRange
use polar_db_stack_common.Ports.PortRange.{
  PortRange, PortRanges, end_before_start, set, set_trimmed, set_bounds, parse_bounds,
  parse_port_range, set_reserved_port_ranges, ranges_contain, get_min_and_max_port, read_bounds,
  to_string,
}
use polar_db_stack_common.Ports.PortRange.Bounds.{IsValid, InRange}
use polar_db_stack_common.Ports.PortRange.RoundTrip.{range_at, set-to_string}
use polar_db_stack_common.Ports.GoSet
use polar_db_stack_common.Ports.GoSet.{
  Op, add_op, remove_op, run, GoSet, has, new_go_set, add, add_loop, get_all,
}
use polar_db_stack_common.Ports.GoSet.Members.{view, spec_run, run-view}
use polar_db_stack_common.Ports.Cluster.{ConfigMap, SshResult, Cluster}
use polar_db_stack_common.Ports.Usage.{
  add_port, ports_of_keys, get_used_tcp_port_by_configmap, add_node, add_nodes, get_all_used_port,
  get_all_node_used_port,
}
use polar_db_stack_common.Ports.Usage.Collected.{lists_port}
use polar_db_stack_common.Ports.Generator
use polar_db_stack_common.Ports.Generator.{
  Keys, PortError, all_used, can_not_update, gave_up, is_free, read_ranges, last_given, start_port,
  scan, select_port, get_next_scope_port, check_port_used, get_next_cluster_external_port,
}
use polar_db_stack_common.Ports.Generator.Reads.{begin_of, end_of, from_of, stored}
use polar_db_stack_common.Ports.Generator.Allocation.{
  allocated_in_ranges, allocated_unused, exhausted_none_free, lower_bound_skipped,
}
use polar_db_stack_common.Ports.Generator.Retry.{
  Grants, Conflicts, external_port_iff, next_port_higher,
}
use polar_db_stack_common.Ports.Generator.Scan.{NoneBetween}

abbrev keys : Keys
keys = record { reserved_port_ranges_annotation = codes "reserved" }

abbrev last_port : Text
last_port = codes "last"

abbrev range : Text
range = codes "range"

abbrev configured : ConfigMap
configured = record {
  annotations = (range, codes "100-103") ∷ (codes "reserved", codes "102-102") ∷ [];
  contents = [];
}

abbrev host : Text
host = codes "node"

abbrev used_ports : ConfigMap
used_ports = record { annotations = []; contents = (codes "101", []) ∷ [] }

abbrev no_output : SshResult
no_output = record { out = []; err_info = []; failure = none }

abbrev cluster_with : ConfigMap → Bool → Cluster
cluster_with cm accepts = record {
  port_config_map = ok cm;
  nodes = ok (some (host ∷ []));
  port_usage = λ node. ok used_ports;
  netstat = λ node. no_output;
  accepts = λ cm'. accepts;
}

abbrev cluster : Cluster
cluster = cluster_with configured true

abbrev ranges : PortRanges
ranges = record {
  port_range = record { base = pos 100; size = pos 4 };
  reserved_port_ranges = record { base = pos 102; size = pos 1 } ∷ [];
}

abbrev updated : ConfigMap
updated = stored last_port configured (pos 103)

ranges_read : read_ranges keys range configured ≡ ok ranges
unfolding read_ranges Generator.parse_port_ranges parse_port_range set_reserved_port_ranges set
    set_trimmed set_bounds parse_bounds int_add int_sub atoi trim_space split_byte wrap_int ◌+ℤ◌
    ◌-ℤ◌
ranges_read = refl

given : get_next_scope_port keys last_port range cluster ≡ ok (pos 103, updated)
unfolding get_next_scope_port read_ranges Generator.parse_port_ranges parse_port_range
    set_reserved_port_ranges set set_trimmed set_bounds parse_bounds int_add int_sub atoi itoa
    trim_space split_byte wrap_int ◌+ℤ◌ ◌-ℤ◌ get_min_and_max_port get_all_node_used_port
    get_all_used_port add_nodes add_node get_used_tcp_port_by_configmap ports_of_keys add_port add
    add_loop get_all new_go_set to_int32 last_given start_port select_port scan ranges_contain
    PortRange.contains GoSet.contains
given = refl

reserved-IsValid : All IsValid ranges.reserved_port_ranges
reserved-IsValid =
    (record { base_nonneg = omega arith; size_nonneg = omega arith; end_fits = omega int_laws }, tt)

ranges-IsValid : IsValid ranges.port_range
ranges-IsValid = record {
  base_nonneg = omega arith;
  size_nonneg = omega arith;
  end_fits = omega int_laws;
}

allocated_in_ranges_example :
    InRange ranges.port_range (pos 103)
    × All (λ r. ¬ InRange r (pos 103)) ranges.reserved_port_ranges
    × (updated ≡ stored last_port configured (pos 103))
    × (cluster.accepts updated ≡ true)
allocated_in_ranges_example =
    allocated_in_ranges keys last_port range cluster configured ranges refl ranges_read (pos 103)
      updated ranges-IsValid reserved-IsValid given

allocated_unused_example : lists_port (pos 103) used_ports.contents ≡ false
allocated_unused_example =
    allocated_unused keys last_port range cluster configured ranges refl ranges_read (pos 103)
      updated used_ports (host ∷ []) host given
      (record { positive = omega arith; small = omega arith }) refl refl refl

-- The remembered port is the last one but one, and the last one is reserved.
abbrev narrow : ConfigMap
narrow = record {
  annotations = (range, codes "100-103") ∷ (codes "reserved", codes "103-103") ∷ [];
  contents = (last_port, codes "102") ∷ [];
}

abbrev narrow_ranges : PortRanges
narrow_ranges = record ranges {
  reserved_port_ranges = record { base = pos 103; size = pos 1 } ∷ [];
}

narrow_read : read_ranges keys range narrow ≡ ok narrow_ranges
unfolding read_ranges Generator.parse_port_ranges parse_port_range set_reserved_port_ranges set
    set_trimmed set_bounds parse_bounds int_add int_sub atoi trim_space split_byte wrap_int ◌+ℤ◌
    ◌-ℤ◌
narrow_read = refl

exhausted :
    get_next_scope_port keys last_port range (cluster_with narrow true) ≡ err (all_used (pos 103))
unfolding get_next_scope_port read_ranges Generator.parse_port_ranges parse_port_range
    set_reserved_port_ranges set set_trimmed set_bounds parse_bounds int_add int_sub atoi itoa
    trim_space split_byte wrap_int ◌+ℤ◌ ◌-ℤ◌ get_min_and_max_port get_all_node_used_port
    get_all_used_port add_nodes add_node get_used_tcp_port_by_configmap ports_of_keys add_port add
    add_loop get_all new_go_set to_int32 last_given start_port select_port scan ranges_contain
    PortRange.contains GoSet.contains
exhausted = refl

exhausted_none_free_example :
    (used : Option GoSet) × (get_all_node_used_port (cluster_with narrow true) ≡ ok used)
    × NoneBetween
        (is_free narrow_ranges used)
        (from_of last_port narrow narrow_ranges)
        (end_of narrow_ranges +ℤ pos 1)
exhausted_none_free_example =
    exhausted_none_free keys last_port range (cluster_with narrow true) narrow narrow_ranges refl
      narrow_read (pos 103) ranges-IsValid exhausted

begins : begin_of ranges ≤ℤ last_given last_port configured (begin_of ranges)
unfolding last_given atoi itoa get_min_and_max_port int_add int_sub wrap_int ◌+ℤ◌ ◌-ℤ◌
begins = omega arith

lower_bound_skipped_example : begin_of ranges <ℤ pos 103
lower_bound_skipped_example =
    lower_bound_skipped keys last_port range cluster configured ranges refl ranges_read (pos 103)
      updated ranges-IsValid begins given

abbrev refusing : Cluster
refusing = cluster_with configured false

conflict : Conflicts keys last_port range refusing
unfolding get_next_scope_port read_ranges Generator.parse_port_ranges parse_port_range
    set_reserved_port_ranges set set_trimmed set_bounds parse_bounds int_add int_sub atoi itoa
    trim_space split_byte wrap_int ◌+ℤ◌ ◌-ℤ◌ get_min_and_max_port get_all_node_used_port
    get_all_used_port add_nodes add_node get_used_tcp_port_by_configmap ports_of_keys add_port add
    add_loop get_all new_go_set to_int32 last_given start_port select_port scan ranges_contain
    PortRange.contains GoSet.contains
conflict = inl refl

external_port_iff_example :
    (get_next_cluster_external_port keys last_port range refusing cluster cluster
      ≡ ok (pos 103, updated))
    ↔ (Grants keys last_port range refusing (pos 103, updated)
        ⊎ (Conflicts keys last_port range refusing
            × Grants keys last_port range cluster (pos 103, updated))
        ⊎ (Conflicts keys last_port range refusing
            × Conflicts keys last_port range cluster
            × Grants keys last_port range cluster (pos 103, updated)))
external_port_iff_example =
    external_port_iff keys last_port range refusing cluster cluster (pos 103, updated)

listed : lists_port (pos 101) used_ports.contents ≡ true
unfolding trim_space atoi to_int32
listed = refl

set-to_string_example : set (to_string (range_at 100 3)) ≡ ok (range_at 100 3)
set-to_string_example = set-to_string 100 3 (omega arith)

run-view_example :
    view (run (pos 1 ∷ []) (add_op (pos 2 ∷ []) ∷ remove_op (pos 1 ∷ []) ∷ [])) (pos 2)
    ≡ spec_run (view (pos 1 ∷ [])) (add_op (pos 2 ∷ []) ∷ remove_op (pos 1 ∷ []) ∷ []) (pos 2)
run-view_example = run-view (pos 1 ∷ []) (add_op (pos 2 ∷ []) ∷ remove_op (pos 1 ∷ []) ∷ []) (pos 2)

port_text : read_bounds (trim_space (codes "100-103")) ≡ ok (pos 100, pos 103)
unfolding parse_bounds atoi trim_space set_bounds
port_text = refl

text_present : trim_space (codes "100-103") ≢ []
unfolding trim_space
text_present = λ e. cc e

abbrev open_map : ConfigMap
open_map = record { annotations = (range, codes "100-103") ∷ []; contents = [] }

abbrev open_ranges : PortRanges
open_ranges = record ranges { reserved_port_ranges = [] }

open_read : read_ranges keys range open_map ≡ ok open_ranges
unfolding read_ranges Generator.parse_port_ranges parse_port_range set_reserved_port_ranges set
    set_trimmed set_bounds parse_bounds int_add int_sub atoi trim_space split_byte wrap_int ◌+ℤ◌
    ◌-ℤ◌
open_read = refl

abbrev once : ConfigMap
once = stored last_port open_map (pos 102)

first_given :
    get_next_scope_port keys last_port range (cluster_with open_map true) ≡ ok (pos 102, once)
unfolding get_next_scope_port read_ranges Generator.parse_port_ranges parse_port_range
    set_reserved_port_ranges set set_trimmed set_bounds parse_bounds int_add int_sub atoi itoa
    trim_space split_byte wrap_int ◌+ℤ◌ ◌-ℤ◌ get_min_and_max_port get_all_node_used_port
    get_all_used_port add_nodes add_node get_used_tcp_port_by_configmap ports_of_keys add_port add
    add_loop get_all new_go_set to_int32 last_given start_port select_port scan ranges_contain
    PortRange.contains GoSet.contains
first_given = refl

second_given :
    get_next_scope_port keys last_port range (cluster_with once true)
    ≡ ok (pos 103, stored last_port once (pos 103))
unfolding get_next_scope_port read_ranges Generator.parse_port_ranges parse_port_range
    set_reserved_port_ranges set set_trimmed set_bounds parse_bounds int_add int_sub atoi itoa
    trim_space split_byte wrap_int ◌+ℤ◌ ◌-ℤ◌ get_min_and_max_port get_all_node_used_port
    get_all_used_port add_nodes add_node get_used_tcp_port_by_configmap ports_of_keys add_port add
    add_loop get_all new_go_set to_int32 last_given start_port select_port scan ranges_contain
    PortRange.contains GoSet.contains
second_given = refl

not_at_end : pos 102 <ℤ end_of open_ranges
unfolding get_min_and_max_port int_add int_sub wrap_int ◌+ℤ◌ ◌-ℤ◌
not_at_end = omega arith

next_port_higher_example : pos 102 <ℤ pos 103
next_port_higher_example =
    next_port_higher keys last_port range (cluster_with open_map true) open_map open_ranges refl
      open_read (cluster_with once true) (pos 102) (pos 103) once (stored last_port once (pos 103))
      ranges-IsValid first_given refl second_given not_at_end
