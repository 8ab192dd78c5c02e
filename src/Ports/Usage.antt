-- ===== src/Ports/Usage.antt =====
-- The ports in use, as business/adapter/port_generator.go collects them from the nodes.
pub mod Collected
use polar_db_stack_common.Common.{
  ◌≡◌, Bool, true, false, not, ◌&&◌, ◌||◌, List, [], ◌∷◌, Option, none, some, if◌then◌else◌,
}
use polar_db_stack_common.Common.Int.{ℤ, pos, ltb_ℤ, to_int32}
use polar_db_stack_common.Common.Text.{Text, codes, text_eq, trim_space, split_byte, has_substring}
use polar_db_stack_common.Common.Decimal.{atoi}
use polar_db_stack_common.Common.Dict.{Dict}
use polar_db_stack_common.Common.Outcome.{Outcome, ok, err}
use polar_db_stack_common.Ports.GoSet.{GoSet, new_go_set, add, get_all}
use polar_db_stack_common.Ports.Cluster.{ApiError, not_found, other, ConfigMap, SshResult, Cluster}

-- `intPort < 1 || intPort > 65535` skips a number.
abbrev pub is_port : ℤ → Bool
is_port z = not (ltb_ℤ z (pos 1) || ltb_ℤ (pos 65535) z)

-- One text that should be a port.
unfoldable pub add_port : Text → GoSet → GoSet
add_port text s = elim (atoi text) [
  | none ↦ s
  | some z ↦ if is_port z then (add (to_int32 z ∷ []) s).0 else s
]

unfoldable pub ports_of_keys : Dict Text → GoSet → GoSet
ports_of_keys [] s = s
ports_of_keys ((key, value) ∷ contents) s = ports_of_keys contents (add_port (trim_space key) s)

abbrev pub used_of : Outcome ApiError ConfigMap → Outcome ApiError GoSet
used_of (err e) = err e
used_of (ok cm) = ok (ports_of_keys cm.contents new_go_set)

-- `getUsedTcpPortByConfigmap`
unfoldable pub get_used_tcp_port_by_configmap : Cluster → Text → Outcome ApiError GoSet
get_used_tcp_port_by_configmap c host = used_of (c.port_usage host)

-- `addressPart[lenStr-1]`: `strings.Split` gives at least one part.
abbrev last_part : Text → List Text → Text
last_part part [] = part
last_part part (next ∷ parts) = last_part next parts

abbrev port_part : Text → Text
port_part line = last_part [] (split_byte b':' line)

unfoldable pub ports_of_lines : List Text → GoSet → GoSet
ports_of_lines [] s = s
ports_of_lines (line ∷ lines) s =
    ports_of_lines lines
      (if text_eq (trim_space line) [] then s else add_port (port_part (trim_space line)) s)

pub data SshError : Type 0 where
  command_failed nil_dereference : SshError

-- The handling of the output. The second test never holds, since every text contains the empty one;
-- if it did, the code would call a method of the nil error.
unfoldable pub parse_netstat : SshResult → Outcome SshError (Option GoSet)
parse_netstat r = elim r.failure [
  | some e ↦
      if text_eq e (codes "exit status 1") && text_eq r.out [] then ok none else err command_failed
  | none ↦
      if not (text_eq r.err_info []) && not (has_substring [] r.err_info)
      then err nil_dereference
      else if text_eq r.out []
      then ok none
      else ok (some (ports_of_lines (split_byte 10 (trim_space r.out)) new_go_set))
]

-- `getUsedTcpPort`
unfoldable pub get_used_tcp_port : Cluster → Text → Outcome SshError (Option GoSet)
get_used_tcp_port c host = parse_netstat (c.netstat host)

-- What ssh found, where there is no config map.
abbrev pub add_by_ssh : Outcome SshError (Option GoSet) → GoSet → GoSet
add_by_ssh (ok (some used)) port_set = (add (get_all used) port_set).0
add_by_ssh (ok none) port_set = port_set
add_by_ssh (err f) port_set = port_set

abbrev pub add_by_configmap :
    Outcome ApiError GoSet → Outcome SshError (Option GoSet) → GoSet → GoSet
add_by_configmap (ok used) by_ssh port_set = (add (get_all used) port_set).0
add_by_configmap (err (not_found e)) by_ssh port_set = add_by_ssh by_ssh port_set
add_by_configmap (err (other e)) by_ssh port_set = port_set

-- One round of the loop over the nodes: the config map first, ssh if there is none; a node whose
-- ports cannot be read is passed over.
unfoldable pub add_node : Cluster → Text → GoSet → GoSet
add_node c node port_set =
    add_by_configmap (get_used_tcp_port_by_configmap c node) (get_used_tcp_port c node) port_set

unfoldable pub add_nodes : Cluster → List Text → GoSet → GoSet
add_nodes c [] port_set = port_set
add_nodes c (node ∷ nodes) port_set = add_nodes c nodes (add_node c node port_set)

-- `getAllUsedPort`
unfoldable pub get_all_used_port : Cluster → Option (List Text) → Option GoSet
get_all_used_port c none = none
get_all_used_port c (some nodes) = some (add_nodes c nodes new_go_set)

-- `getAllNodeUsedPort`
unfoldable pub get_all_node_used_port : Cluster → Outcome ApiError (Option GoSet)
get_all_node_used_port c = elim c.nodes [
  | err e ↦ err e
  | ok nodes ↦ ok (get_all_used_port c nodes)
]
