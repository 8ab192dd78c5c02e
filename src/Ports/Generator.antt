-- ===== src/Ports/Generator.antt =====
-- business/adapter/port_generator.go: the next free port, remembered in the config map of the port
-- ranges, and the check of a given port. The mutex makes one call one step; the answers of the API
-- server during it are a `Cluster`.
pub mod Scan
pub mod Reads
pub mod Start
pub mod Allocation
pub mod Retry
use polar_db_stack_common.Common.{
  ℕ, zero, suc, ◌≡◌, Bool, true, false, not, ◌&&◌, ◌||◌, List, [], ◌∷◌, Option, none, some,
  if◌then◌else◌,
}
use polar_db_stack_common.Common.Int.{ℤ, pos, pos_part, leb_ℤ, int_add, int_sub, to_int32, ◌-ℤ◌}
use polar_db_stack_common.Common.Text.{Text, codes, text_eq}
use polar_db_stack_common.Common.Decimal.{atoi, itoa}
use polar_db_stack_common.Common.Dict.{Dict, lookup, insert, text_at}
use polar_db_stack_common.Common.Outcome.{Outcome, ok, err, ◌>>=◌}
use polar_db_stack_common.Ports.PortRange.{
  PortRange, PortRanges, RangeError, parse_port_range, set_reserved_port_ranges, ranges_contain,
  get_min_and_max_port,
}
use polar_db_stack_common.Ports.GoSet.{GoSet, has, contains}
use polar_db_stack_common.Ports.Cluster.{ApiError, message, ConfigMap, Cluster}
use polar_db_stack_common.Ports.Usage.{get_all_node_used_port}

pub data PortError : Type 0 where
  api : ApiError → PortError
  bad_range : RangeError → PortError
  -- "all port are used", with the last port that was tried
  all_used : ℤ → PortError
  -- "CAN_NOT_UPDATE"
  can_not_update : PortError
  -- the end of GetNextClusterExternalPort
  gave_up : PortError
  not_in_range occupied : ℤ → PortError
  nil_dereference : PortError

abbrev of_api {ℓ} : {A : Type ℓ} → Outcome ApiError A → Outcome PortError A
of_api (ok a) = ok a
of_api (err e) = err (api e)

abbrev of_range {ℓ} : {A : Type ℓ} → Outcome RangeError A → Outcome PortError A
of_range (ok a) = ok a
of_range (err e) = err (bad_range e)

-- The names of the annotations and of the entry that remembers the last port: the configuration and
-- define/constant.go give them.
pub record Keys : Type 0 where
  pub reserved_port_ranges_annotation : Text

unfoldable pub parse_port_ranges : Text → Text → Outcome RangeError PortRanges
parse_port_ranges value [] = do
  pr ← parse_port_range value
  ok (record { port_range = pr; reserved_port_ranges = [] })
parse_port_ranges value (c ∷ reserved) = do
  pr ← parse_port_range value
  set_reserved_port_ranges (c ∷ reserved) (record { port_range = pr; reserved_port_ranges = [] })

-- The ranges that the config map's annotations describe; without the annotation no port is reserved.
unfoldable pub read_ranges : Keys → Text → ConfigMap → Outcome PortError PortRanges
read_ranges keys ranges_name cm = of_range (
    parse_port_ranges (text_at ranges_name cm.annotations)
      (text_at keys.reserved_port_ranges_annotation cm.annotations))

-- Where the search starts: after the port that the entry remembers, or at the lower bound.
unfoldable pub last_given : Text → ConfigMap → ℤ → ℤ
last_given cm_key cm begin_port =
    let text : Text = elim (lookup cm_key cm.contents) [ none ↦ itoa begin_port | some s ↦ s ] in
    elim (atoi text) [ none ↦ begin_port | some p ↦ p ]

unfoldable pub start_port : ℤ → ℤ → ℤ → ℤ
start_port begin_port end_port p = if leb_ℤ end_port p then begin_port else p

-- In the ranges, and known to be unused. Where the set of used ports is nil no port qualifies.
abbrev pub is_free : PortRanges → Option GoSet → ℤ → Bool
is_free prs none p = false
is_free prs (some used) p = ranges_contain prs p && not (contains (to_int32 p ∷ []) used)

-- The loop `for i := nextPort; i < endPort; i++`, by the rounds that are left: the port that the
-- variable holds at the end, and whether it was selected.
unfoldable pub scan : (ℤ → Bool) → ℕ → ℤ → ℤ × Bool
scan free zero next_port = (next_port, false)
scan free (suc rounds) next_port =
    let rest = scan free rounds (int_add next_port (pos 1)) in
    if free (int_add next_port (pos 1)) then (int_add next_port (pos 1), true) else rest

-- The number of rounds, none if the bounds are the wrong way round.
abbrev pub rounds_between : ℤ → ℤ → ℕ
rounds_between next_port end_port = pos_part (end_port -ℤ next_port)

unfoldable pub select_port : PortRanges → Option GoSet → ℤ → ℤ → Outcome PortError ℤ
select_port prs used next_port end_port =
    let (p, selected) = scan (is_free prs used) (rounds_between next_port end_port) next_port in
    if selected then ok p else err (all_used p)

-- `getNextScopePort`: the port, and the config map that the update stores.
unfoldable pub get_next_scope_port :
    Keys → Text → Text → Cluster → Outcome PortError (ℤ × ConfigMap)
get_next_scope_port keys cm_key begin_port_key c = do
  cm ← of_api c.port_config_map
  prs ← read_ranges keys begin_port_key cm
  let (begin_port, end_port) = get_min_and_max_port prs
  used ← of_api (get_all_node_used_port c)
  let from = start_port begin_port end_port (last_given cm_key cm begin_port)
  next_port ← select_port prs used from end_port
  let cm' = record cm { contents = insert cm_key (itoa next_port) cm.contents }
  if c.accepts cm' then ok (next_port, cm') else err can_not_update

-- `err.Error() == "CAN_NOT_UPDATE"`
abbrev pub is_can_not_update : PortError → Bool
is_can_not_update can_not_update = true
is_can_not_update (api e) = text_eq (message e) (codes "CAN_NOT_UPDATE")
is_can_not_update _ = false

-- A conflict of the update leads to another attempt; any other end of an attempt is the result.
abbrev pub after_attempt {ℓ} :
    {A : Type ℓ} → Outcome PortError A → Outcome PortError A → Outcome PortError A
after_attempt (ok r) again = ok r
after_attempt (err e) again = if is_can_not_update e then again else err e

-- The loop of `GetNextClusterExternalPort`: the cluster as each attempt meets it.
unfoldable pub attempt : Keys → Text → Text → List Cluster → Outcome PortError (ℤ × ConfigMap)
attempt keys cm_key range_key [] = err gave_up
attempt keys cm_key range_key (c ∷ later) =
    let again = attempt keys cm_key range_key later in
    after_attempt (get_next_scope_port keys cm_key range_key c) again

unfoldable pub get_next_cluster_external_port :
    Keys → Text → Text → (c₁ c₂ c₃ : Cluster) → Outcome PortError (ℤ × ConfigMap)
unfolding attempt
get_next_cluster_external_port keys cm_key range_key c₁ c₂ c₃ =
    attempt keys cm_key range_key (c₁ ∷ c₂ ∷ c₃ ∷ [])

-- The second half of `CheckPortUsed`.
check_used : ℤ → Cluster → Outcome PortError (Unit {0})
check_used port c = do
  usage ← of_api (get_all_node_used_port c)
  elim usage [
    | none ↦ err nil_dereference
    | some used ↦ if contains (to_int32 port ∷ []) used then err (occupied port) else ok tt
  ]

-- `CheckPortUsed`: no error means that the port is in the ranges and unused.
unfoldable pub check_port_used : Keys → ℤ → Text → Cluster → Outcome PortError (Unit {0})
unfolding check_used
check_port_used keys port ranges_name c = do
  cm ← of_api c.port_config_map
  prs ← read_ranges keys ranges_name cm
  if not (ranges_contain prs port) then err (not_in_range port) else check_used port c
