-- ===== src/Ports/Usage/Collected.antt =====
-- What the collected set of used ports holds: getAllUsedPort and its two readers in
-- business/adapter/port_generator.go.
use polar_db_stack_common.Common.{
  ◌≡◌, refl, Bool, true, false, ◌&&◌, ◌||◌, List, [], ◌∷◌, Option, none, some, arith, All, any,
  Bool-cases, Option-cases, inl, inr,
}
use polar_db_stack_common.Common.Int.{ℤ, pos, negsuc, eqb_ℤ, ◌≤ℤ◌, to_int32, to_int32-eq}
use polar_db_stack_common.Common.Text.{Text, text_eq, text_eq_iff, text_mem, trim_space, split_byte}
use polar_db_stack_common.Common.Decimal.{atoi}
use polar_db_stack_common.Common.Dict.{Dict}
use polar_db_stack_common.Common.Outcome.{Outcome, ok, err}
use polar_db_stack_common.Ports.GoSet.{GoSet, new_go_set, add, get_all, has}
use polar_db_stack_common.Ports.GoSet.Members.{has-add, All-add}
use polar_db_stack_common.Ports.Cluster.{ApiError, not_found, other, ConfigMap, SshResult, Cluster}
use polar_db_stack_common.Ports.Usage.{
  is_port, add_port, ports_of_keys, ports_of_lines, port_part, parse_netstat, get_used_tcp_port,
  get_used_tcp_port_by_configmap, used_of, SshError, add_by_configmap, add_node, add_nodes,
}

-- A port number of TCP or UDP.
pub record IsPort (z : ℤ) : Type 0 where
  pub positive : pos 1 ≤ℤ z
  pub small : z ≤ℤ pos 65535

pub is_port→IsPort : (z : ℤ) → is_port z ≡ true → IsPort z
is_port→IsPort z h = ground arith

pub IsPort→is_port : (z : ℤ) → IsPort z → is_port z ≡ true
IsPort→is_port z h = ground arith

-- The conversion to `int32` keeps a port.
pub to_int32-port : (z : ℤ) → IsPort z → to_int32 z ≡ z
to_int32-port (pos n) h = to_int32-eq n (omega arith)
to_int32-port (negsuc n) h = absurd (omega arith)

-- A text that names a port, and the entries of a config map that do.
abbrev pub names_port : ℤ → Text → Bool
names_port p text = elim (atoi text) [ none ↦ false | some z ↦ is_port z && eqb_ℤ p z ]

abbrev pub lists_port : ℤ → Dict Text → Bool
lists_port p contents = any (λ e. names_port p (trim_space e.0)) contents

add_port-some :
    (text : Text) (z : ℤ) (s : GoSet)
    → atoi text ≡ some z
    → is_port z ≡ true
    → add_port text s ≡ (add (z ∷ []) s).0
unfolding add_port
add_port-some text z s e i = ground (arith, to_int32-port z (is_port→IsPort z i))

skip_port :
    (text : Text) (z : ℤ) (s : GoSet) → atoi text ≡ some z → is_port z ≡ false → add_port text s ≡ s
unfolding add_port
skip_port text z s e i = ground arith

has-add_port :
    (p : ℤ) (text : Text) (s : GoSet) → has p (add_port text s) ≡ (has p s || names_port p text)
unfolding add_port
has-add_port p text s = elim (Option-cases (atoi text)) [
  | inl bad ↦ ground arith
  | inr (z, e) ↦
      ground
        (arith, add_port-some text z s e, has-add p (z ∷ []) s, to_int32-port z, is_port→IsPort z)
]

has-ports_of_keys :
    (p : ℤ) (contents : Dict Text) (s : GoSet)
    → has p (ports_of_keys contents s) ≡ (has p s || lists_port p contents)
unfolding ports_of_keys
has-ports_of_keys p [] s = ground arith
has-ports_of_keys p ((key, value) ∷ contents) s = ground (
  arith,
  has-ports_of_keys p contents (add_port (trim_space key) s),
  has-add_port p (trim_space key) s,
)

All-add_port : (text : Text) (s : GoSet) → All IsPort s → All IsPort (add_port text s)
unfolding add_port
All-add_port text s h = elim (Option-cases (atoi text)) [
  | inl bad ↦ rw (bad, add_port) h
  | inr (z, e) ↦ elim (Bool-cases (is_port z)) [
    | inl i ↦ rw (add_port-some text z s e i) (All-add IsPort (z ∷ []) s h (is_port→IsPort z i, tt))
    | inr i ↦ rw (skip_port text z s e i) h
  ]
]

All-ports_of_keys : (d : Dict Text) (s : GoSet) → All IsPort s → All IsPort (ports_of_keys d s)
unfolding ports_of_keys
All-ports_of_keys [] s h = h
All-ports_of_keys ((key, value) ∷ d) s h =
    All-ports_of_keys d (add_port (trim_space key) s) (All-add_port (trim_space key) s h)

All-ports_of_lines :
    (lines : List Text) (s : GoSet) → All IsPort s → All IsPort (ports_of_lines lines s)
unfolding ports_of_lines
All-ports_of_lines [] s h = h
All-ports_of_lines (line ∷ lines) s h = elim (Bool-cases (text_eq (trim_space line) [])) [
  | inl blank ↦ rw (blank, ports_of_lines) (All-ports_of_lines lines s h)
  | inr used ↦
      rw (used, ports_of_lines)
        (All-ports_of_lines lines (add_port (port_part (trim_space line)) s)
          (All-add_port (port_part (trim_space line)) s h))
]

netstat_ports : (r : SshResult) (used : GoSet) → parse_netstat r ≡ ok (some used) → All IsPort used
unfolding parse_netstat new_go_set
netstat_ports r used e = ground (arith, All-ports_of_lines (split_byte 10 (trim_space r.out)) [] tt)

ports_of_outcome :
    (o : Outcome ApiError ConfigMap) (used : GoSet) → used_of o ≡ ok used → All IsPort used
unfolding new_go_set
ports_of_outcome (ok cm) used e = ground (arith, All-ports_of_keys cm.contents [] tt)
ports_of_outcome (err e') used e = cc

All-add_node :
    (c : Cluster) (node : Text) (s : GoSet) → All IsPort s → All IsPort (add_node c node s)
unfolding add_node get_used_tcp_port get_used_tcp_port_by_configmap get_all
All-add_node c node s h =
    by_configmap (used_of (c.port_usage node)) (parse_netstat (c.netstat node))
      (ports_of_outcome (c.port_usage node)) (netstat_ports (c.netstat node))
  where
    by_configmap :
        (o : Outcome ApiError GoSet) (p : Outcome SshError (Option GoSet))
        → ((used : GoSet) → o ≡ ok used → All IsPort used)
        → ((used : GoSet) → p ≡ ok (some used) → All IsPort used)
        → All IsPort (add_by_configmap o p s)
    by_configmap (ok used) p f g = All-add IsPort used s h (f used refl)
    by_configmap (err (not_found e)) (ok (some used)) f g = All-add IsPort used s h (g used refl)
    by_configmap (err (not_found e)) (ok none) f g = h
    by_configmap (err (not_found e)) (err k) f g = h
    by_configmap (err (other e)) p f g = h

-- Every port that is collected from the nodes is between 1 and 65535.
pub add_nodes-IsPort :
    (c : Cluster) (nodes : List Text) (s : GoSet) → All IsPort s → All IsPort (add_nodes c nodes s)
unfolding add_nodes
add_nodes-IsPort c [] s h = h
add_nodes-IsPort c (node ∷ nodes) s h =
    add_nodes-IsPort c nodes (add_node c node s) (All-add_node c node s h)

has-add_node :
    (c : Cluster) (node : Text) (p : ℤ) (s : GoSet)
    → has p s ≡ true
    → has p (add_node c node s) ≡ true
unfolding add_node
has-add_node c node p s h =
    by_configmap (get_used_tcp_port_by_configmap c node) (get_used_tcp_port c node)
  where
    by_configmap :
        (o : Outcome ApiError GoSet) (q : Outcome SshError (Option GoSet))
        → has p (add_by_configmap o q s) ≡ true
    by_configmap (ok used) q = ground (arith, has-add p (get_all used) s)
    by_configmap (err (not_found e)) (ok (some used)) = ground (arith, has-add p (get_all used) s)
    by_configmap (err (not_found e)) (ok none) = h
    by_configmap (err (not_found e)) (err k) = h
    by_configmap (err (other e)) q = h

has-add_nodes :
    (c : Cluster) (nodes : List Text) (p : ℤ) (s : GoSet)
    → has p s ≡ true
    → has p (add_nodes c nodes s) ≡ true
unfolding add_nodes
has-add_nodes c [] p s h = h
has-add_nodes c (node ∷ nodes) p s h =
    has-add_nodes c nodes p (add_node c node s) (has-add_node c node p s h)

configmap_node :
    (c : Cluster) (node : Text) (cm : ConfigMap) (p : ℤ) (s : GoSet)
    → c.port_usage node ≡ ok cm
    → lists_port p cm.contents ≡ true
    → has p (add_node c node s) ≡ true
unfolding add_node get_used_tcp_port_by_configmap new_go_set get_all
configmap_node c node cm p s e l =
    ground (arith, has-ports_of_keys p cm.contents [], has-add p (ports_of_keys cm.contents []) s)

-- A port that the config map of any node of the list names is in the collected set.
pub configmap_port-collected :
    (c : Cluster) (nodes : List Text) (node : Text) (cm : ConfigMap) (p : ℤ) (s : GoSet)
    → text_mem node nodes ≡ true
    → c.port_usage node ≡ ok cm
    → lists_port p cm.contents ≡ true
    → has p (add_nodes c nodes s) ≡ true
unfolding add_nodes
configmap_port-collected c [] node cm p s m e l = cc
configmap_port-collected c (first ∷ nodes) node cm p s m e l =
    elim (Bool-cases (text_eq node first)) [
      | inl same ↦
          let n : node ≡ first = (text_eq_iff node first).0 same in
          has-add_nodes c nodes p (add_node c first s) (configmap_node c first cm p s (rw n at e) l)
      | inr differs ↦
          configmap_port-collected c nodes node cm p (add_node c first s) (ground arith) e l
    ]
