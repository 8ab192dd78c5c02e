-- ===== src/Config.antt =====
-- utils/k8sutil/controller_config.go: the controller's configuration, which is read from a config map and
-- kept for half an hour. Times are in nanoseconds.
mod Cached
mod Tests
use polar_db_stack_common.Common.{
  ℕ, ◌+◌, ◌-◌, ◌≡◌, Bool, true, false, not, ◌&&◌, ◌||◌, List, [], ◌∷◌, ◌++◌, Option, none, some,
  if◌then◌else◌, ◌==◌, leb, any,
}
use polar_db_stack_common.Common.Text.{Text, codes, text_eq, text_mem, trim_space, split_byte}
use polar_db_stack_common.Common.Dict.{Dict, lookup}
use polar_db_stack_common.Common.Outcome.{Outcome, ok, err, ◌>>=◌}

pub record ControllerConfig : Type 0 where
  pub disable_san_cmd : Bool
  pub hybrid_deployment : Bool
  pub cm_hybrid_deployment : Bool
  pub can_update_not_changeable_params : Bool
  pub cow_snapshot_support : Bool
  pub enable_online_promote : Bool
  pub enable_vip : Bool
  pub enable_pod_gc : Bool
  pub enable_check_sum : Bool
  pub enable_degrade : Bool
  pub enable_redline : Bool
  pub degrade_daemon_set : List Text
  pub degrade_deployment : List Text
  pub disabled_wf_events : List Text
  pub ssh_user : Text
  pub ssh_password : Text
  pub controller_node_label : Text

-- `GetControllerConfigPolicy`
pub record Policy : Type 0 where
  pub is_inited : Bool
  pub last_query_time : Option ℕ
  pub max_query_step_time : Option ℕ
  pub last_value : Option ControllerConfig

-- `time.Now().Sub(last) >= step`, or no limit.
abbrev pub is_over : ℕ → ℕ → Option ℕ → Bool
is_over now last none = false
is_over now last (some step) = not (step == 0) && leb (last + step) now

-- The value that is still good, if there is one: `CheckPolicyIsReload` is that there is none.
abbrev pub kept_value : ℕ → Option ℕ → Option ℕ → Option ControllerConfig → Option ControllerConfig
kept_value now (some last) step (some value) = if is_over now last step then none else some value
kept_value now none step value = none
kept_value now (some last) step none = none

unfoldable pub cached_value : ℕ → Option Policy → Option ControllerConfig
cached_value now none = none
cached_value now (some policy) =
    if policy.is_inited
    then kept_value now policy.last_query_time policy.max_query_step_time policy.last_value
    else none

-- `strings.ToUpper` of a byte.
abbrev upper : Text → Text
upper [] = []
upper (c ∷ s) = (if leb b'a' c && leb c b'z' then c - 32 else c) ∷ upper s

abbrev yes_texts : List Text
yes_texts = codes "1" ∷ (codes "T" ∷ (codes "Y" ∷ (codes "TRUE" ∷ (codes "YES" ∷ []))))

abbrev no_texts : List Text
no_texts = codes "0" ∷ (codes "F" ∷ (codes "N" ∷ (codes "FALSE" ∷ (codes "NO" ∷ []))))

abbrev pub bool_of : Bool → Text → Bool
bool_of default_value s =
    if text_mem s yes_texts
    then true
    else if default_value
    then not (text_mem s no_texts)
    else false

abbrev bool_with_default : Bool → Option Text → Bool
bool_with_default default_value none = default_value
bool_with_default default_value (some []) = default_value
bool_with_default default_value (some (c ∷ s)) = bool_of default_value (upper (trim_space (c ∷ s)))

-- It gives no error; a key that is missing is logged.
unfoldable pub parse_map_item_to_bool_with_default : Dict Text → Text → Bool → Bool
parse_map_item_to_bool_with_default entries key default_value =
    bool_with_default default_value (lookup key entries)

-- The error names the key; the map that the message prints is left out.
abbrev pub item : Text → Option Text → Outcome Text Text
item key (some value) = ok value
item key none = err (codes "key [" ++ (key ++ codes "] not found from map"))

unfoldable pub parse_map_item_to_string : Dict Text → Text → Outcome Text Text
parse_map_item_to_string entries key = item key (lookup key entries)

unfoldable pub parse_map_item_to_slice : Dict Text → Text → Outcome Text (List Text)
parse_map_item_to_slice entries key = do
  value ← item key (lookup key entries)
  ok (split_byte b',' value)

-- The configuration that the data of the config map holds.
unfoldable pub read_config : Dict Text → Outcome Text ControllerConfig
read_config entries = do
  degrade_daemon_set ← parse_map_item_to_slice entries (codes "degradeDaemonSet")
  degrade_deployment ← parse_map_item_to_slice entries (codes "degradeDeployment")
  disabled_wf_events ← parse_map_item_to_slice entries (codes "disabledWfEvents")
  ssh_user ← parse_map_item_to_string entries (codes "sshUser")
  ssh_password ← parse_map_item_to_string entries (codes "sshPassword")
  controller_node_label ← parse_map_item_to_string entries (codes "controllerNodeLabel")
  ok (record {
    disable_san_cmd = parse_map_item_to_bool_with_default entries (codes "disableSanCmd") true;
    hybrid_deployment = parse_map_item_to_bool_with_default entries (codes "hybridDeployment") true;
    cm_hybrid_deployment =
        parse_map_item_to_bool_with_default entries (codes "cmHybridDeployment") false;
    can_update_not_changeable_params =
        parse_map_item_to_bool_with_default entries (codes "canUpdateNotChangeableParams") false;
    cow_snapshot_support =
        parse_map_item_to_bool_with_default entries (codes "cowSnapshotSupport") false;
    enable_online_promote =
        parse_map_item_to_bool_with_default entries (codes "enableOnlinePromote") false;
    enable_vip = parse_map_item_to_bool_with_default entries (codes "enableVip") true;
    enable_pod_gc = parse_map_item_to_bool_with_default entries (codes "enablePodGc") true;
    enable_check_sum = parse_map_item_to_bool_with_default entries (codes "enableCheckSum") false;
    enable_degrade = parse_map_item_to_bool_with_default entries (codes "enableDegrade") false;
    enable_redline = parse_map_item_to_bool_with_default entries (codes "enableRedline") true;
    degrade_daemon_set = degrade_daemon_set;
    degrade_deployment = degrade_deployment;
    disabled_wf_events = disabled_wf_events;
    ssh_user = ssh_user;
    ssh_password = ssh_password;
    controller_node_label = controller_node_label;
  })

abbrev pub loaded : Outcome Text (Dict Text) → Outcome Text ControllerConfig
loaded (err e) = err (codes "try to get controller config error: " ++ e)
loaded (ok entries) = read_config entries

abbrev pub remember : ℕ → ControllerConfig → Option Policy → Option Policy
remember now value none = none
remember now value (some policy) = some (record {
  is_inited = true;
  last_query_time = some now;
  max_query_step_time = policy.max_query_step_time;
  last_value = some value;
})

abbrev pub after_load :
    ℕ
    → Option Policy
    → Outcome Text ControllerConfig
    → Outcome Text ControllerConfig × Option Policy
after_load now policy (err e) = (err e, policy)
after_load now policy (ok value) = (ok value, remember now value policy)

abbrev pub value_or_load :
    Option ControllerConfig
    → ℕ
    → Option Policy
    → Outcome Text (Dict Text)
    → Outcome Text ControllerConfig × Option Policy
value_or_load (some value) now policy answer = (ok value, policy)
value_or_load none now policy answer = after_load now policy (loaded answer)

-- `GetControllerConfigWithPolicy`, and the policy after it.
unfoldable pub get_controller_config_with_policy :
    ℕ → Option Policy → Outcome Text (Dict Text) → Outcome Text ControllerConfig × Option Policy
get_controller_config_with_policy now policy answer =
    value_or_load (cached_value now policy) now policy answer
