-- ===== src/Placement/Nodes.antt =====
-- The nodes of business/adapter/pod_manager_base.go: which ones are available, by their conditions or by
-- what a check over ssh found of each, in the order in which its results arrive.
use polar_db_stack_common.Common.{
  Bool, true, false, not, ◌&&◌, List, [], ◌∷◌, ◌++◌, Option, none, some, if◌then◌else◌,
}
use polar_db_stack_common.Common.Text.{Text, codes, text_eq}
use polar_db_stack_common.Common.Outcome.{Outcome, ok, err}
use polar_db_stack_common.Engine.Interrupt.{create_interrupt_error}

-- Of a node, its name and the types and statuses of its conditions.
pub record Node : Type 0 where
  pub name : Text
  pub conditions : List (Text × Text)

-- An error, or an interrupt error by its name and its message.
pub data PlacementError : Type 0 where
  failed : Text → PlacementError
  interrupted : Text × Text → PlacementError

-- `GetNodeCondition`: the status of the first condition of a type.
unfoldable pub get_node_condition : Text → List (Text × Text) → Option Text
get_node_condition kind [] = none
get_node_condition kind ((k, status) ∷ rest) =
    if text_eq k kind then some status else get_node_condition kind rest

unfoldable pub check_condition_available : Option Text → Bool
check_condition_available none = true
check_condition_available (some status) = not (text_eq status (codes "True"))

-- `StorageConditionType` and `ClientNetworkConditionType`
abbrev pub storage_condition_type : Text
storage_condition_type = codes "PlugInStorageUnavailable"

abbrev pub client_network_condition_type : Text
client_network_condition_type = codes "NodeClientNetworkUnavailable"

abbrev pub is_available : Node → Bool
is_available node =
    check_condition_available (get_node_condition storage_condition_type node.conditions)
    && check_condition_available (get_node_condition client_network_condition_type node.conditions)

-- The nodes that are not available, and those that are.
abbrev pub put_node : Node → Bool → List Node × List Node → List Node × List Node
put_node node true (unavailable, available) = (unavailable, available ++ (node ∷ []))
put_node node false (unavailable, available) = (unavailable ++ (node ∷ []), available)

abbrev pub sort_nodes : (Node → Bool) → List Node × List Node → List Node → List Node × List Node
sort_nodes test sorted [] = sorted
sort_nodes test sorted (node ∷ nodes) = sort_nodes test (put_node node (test node) sorted) nodes

unfoldable pub check_hw_status_by_node_condition : List Node → List Node × List Node
check_hw_status_by_node_condition nodes = sort_nodes is_available ([], []) nodes

-- What the channel delivers: the nodes in the order of their results, which say whether they are on line.
abbrev pub receive_nodes : List Node × List Node → List (Node × Bool) → List Node × List Node
receive_nodes sorted [] = sorted
receive_nodes sorted ((node, on_line) ∷ results) =
    receive_nodes (put_node node on_line sorted) results

unfoldable pub check_hw_status_by_ssh_node : List (Node × Bool) → List Node × List Node
check_hw_status_by_ssh_node results = receive_nodes ([], []) results

-- By the configuration's `HwCheck`, the list of the nodes, and the results over ssh.
abbrev pub sorted_nodes : Bool → List (Node × Bool) → List Node → List Node × List Node
sorted_nodes hw_check results [] = ([], [])
sorted_nodes hw_check results (node ∷ nodes) =
    if hw_check
    then check_hw_status_by_ssh_node results
    else check_hw_status_by_node_condition (node ∷ nodes)

unfoldable pub get_un_available_nodes :
    Bool → List (Node × Bool) → Outcome Text (List Node) → Outcome Text (List Node × List Node)
get_un_available_nodes hw_check results (ok nodes) = ok (sorted_nodes hw_check results nodes)
get_un_available_nodes hw_check results (err e) = err e

abbrev pub node_names : List Node → List Text
node_names [] = []
node_names (node ∷ nodes) = node.name ∷ node_names nodes

abbrev names_of : Outcome Text (List Node × List Node) → Outcome Text (List Text)
names_of (ok (unavailable, available)) = ok (node_names unavailable)
names_of (err e) = err e

unfoldable pub get_un_available_node :
    Bool → List (Node × Bool) → Outcome Text (List Node) → Outcome Text (List Text)
get_un_available_node hw_check results nodes =
    names_of (get_un_available_nodes hw_check results nodes)

abbrev pub no_available_node : PlacementError
no_available_node = interrupted (
    create_interrupt_error (codes "NO_AVAILABLE_NODE||")
      (some (codes "check unAvailableNode err: availableNodes num<1")))

abbrev pub taint_list : Outcome Text (List Node × List Node) → Outcome PlacementError (List Text)
taint_list (err e) = err (failed e)
taint_list (ok (unavailable, [])) = err no_available_node
taint_list (ok (unavailable, node ∷ available)) = ok (node_names unavailable)

unfoldable pub build_node_available_info :
    Bool → List (Node × Bool) → Outcome Text (List Node) → Outcome PlacementError (List Text)
build_node_available_info hw_check results nodes =
    taint_list (get_un_available_nodes hw_check results nodes)
