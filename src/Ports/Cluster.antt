-- ===== src/Ports/Cluster.antt =====
-- What business/adapter/port_generator.go reads from outside: the answers of the API server and of
-- `netstat` over ssh on a node, at one moment. These stand for code that is not
-- in the repository, so every definition takes them as an argument.
use polar_db_stack_common.Common.{Bool, List, Option}
use polar_db_stack_common.Common.Text.{Text}
use polar_db_stack_common.Common.Dict.{Dict}
use polar_db_stack_common.Common.Outcome.{Outcome}

-- An error of the API server, with its message; `IsNotFound` recognises the first kind.
pub data ApiError : Type 0 where
  not_found other : Text → ApiError

abbrev pub message : ApiError → Text
message (not_found s) = s
message (other s) = s

-- A config map whose data is not a nil map.
pub record ConfigMap : Type 0 where
  pub annotations : Dict Text
  pub contents : Dict Text

-- What a command over ssh gives: standard output, standard error, and the error, if any.
pub record SshResult : Type 0 where
  pub out : Text
  pub err_info : Text
  pub failure : Option Text

pub record Cluster : Type 0 where
  -- the config map of the port ranges
  pub port_config_map : Outcome ApiError ConfigMap
  -- the names of the nodes; `none` where the list has no items
  pub nodes : Outcome ApiError (Option (List Text))
  -- the config map of a node's used ports
  pub port_usage : Text → Outcome ApiError ConfigMap
  pub netstat : Text → SshResult
  -- whether the API server takes an update of the config map
  pub accepts : ConfigMap → Bool
