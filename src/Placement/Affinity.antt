-- ===== src/Placement/Affinity.antt =====
-- BuildPodNodeAffinity of business/adapter/pod_manager_base.go: the requirements on a node's labels.
use polar_db_stack_common.Common.{Bool, not, ◌&&◌, List, [], ◌∷◌, ◌++◌, none, some, if◌then◌else◌}
use polar_db_stack_common.Common.Text.{Text, codes, text_eq}
use polar_db_stack_common.Common.Outcome.{Outcome, ok, err, ◌>>=◌}
use polar_db_stack_common.Engine.Interrupt.{create_interrupt_error}
use polar_db_stack_common.Params.Slice.{contains_string}
use polar_db_stack_common.Placement.Nodes.{PlacementError, failed, interrupted}

-- A `NodeSelectorRequirement` with one of the operators In, NotIn and DoesNotExist.
pub data Requirement : Type 0 where
  in_values not_in_values : Text → List Text → Requirement
  does_not_exist : Text → Requirement

-- What GetControllerConfig gives of the configuration.
pub record ControllerConf : Type 0 where
  pub hybrid_deployment : Bool
  pub controller_node_label : Text

abbrev pub hostname : Text
hostname = codes "kubernetes.io/hostname"

abbrev pub hybrid_requirement : ControllerConf → List Requirement
hybrid_requirement conf =
    if not conf.hybrid_deployment && not (text_eq conf.controller_node_label [])
    then does_not_exist conf.controller_node_label ∷ []
    else []

abbrev pub taint_requirement : List Text → List Requirement
taint_requirement [] = []
taint_requirement (name ∷ names) = not_in_values hostname (name ∷ names) ∷ []

abbrev pub target_unavailable : Text → PlacementError
target_unavailable target_node = interrupted (
    create_interrupt_error (codes "TARGET_NODE_UNAVAILABLE||")
      (some (codes "target node [" ++ (target_node ++ codes "] is unavailable!"))))

abbrev pub target_requirement : List Text → Text → Outcome PlacementError (List Requirement)
target_requirement taint_node_list target_node =
    if text_eq target_node []
    then ok []
    else if contains_string taint_node_list target_node none
    then err (target_unavailable target_node)
    else ok (in_values hostname (target_node ∷ []) ∷ [])

abbrev config_error : Outcome Text ControllerConf → Outcome PlacementError ControllerConf
config_error (ok conf) = ok conf
config_error (err e) = err (failed (codes "GetControllerConfig error:[" ++ (e ++ codes "]")))

-- The match expressions, with the configuration's label of nodes under maintenance.
unfoldable pub build_pod_node_affinity :
    Outcome Text ControllerConf
    → Text
    → List Text
    → Text
    → Outcome PlacementError (List Requirement)
build_pod_node_affinity conf maintain_label taint_node_list target_node = do
  controller_conf ← config_error conf
  target ← target_requirement taint_node_list target_node
  ok (
      target
      ++ (hybrid_requirement controller_conf
          ++ (taint_requirement taint_node_list ++ (does_not_exist maintain_label ∷ []))))
