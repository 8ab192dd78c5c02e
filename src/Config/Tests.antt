-- ===== src/Config/Tests.antt =====
-- A run of utils/k8sutil/controller_config.go: one reading serves two calls.
use polar_db_stack_common.Common.{◌≡◌, refl, true, false, [], ◌∷◌, none, some, arith}
use polar_db_stack_common.Common.Text.{Text, codes, trim_space, split_byte}
use polar_db_stack_common.Common.Dict.{Dict}
use polar_db_stack_common.Common.Outcome.{ok, err}
use polar_db_stack_common.Config.{
  ControllerConfig, Policy, cached_value, loaded, remember, read_config,
  parse_map_item_to_bool_with_default, parse_map_item_to_string, parse_map_item_to_slice,
  get_controller_config_with_policy,
}
use polar_db_stack_common.Config.Cached.{config_kept}

abbrev entries : Dict Text
entries =
    (codes "degradeDaemonSet", codes "a,b")
    ∷ ((codes "degradeDeployment", [])
        ∷ ((codes "disabledWfEvents", [])
            ∷ ((codes "sshUser", codes "root")
                ∷ ((codes "sshPassword", codes "p")
                    ∷ ((codes "controllerNodeLabel", codes "l")
                        ∷ ((codes "enableVip", codes " no ")
                            ∷ ((codes "enablePodGc", codes "nein") ∷ [])))))))

abbrev read : ControllerConfig
read = record {
  disable_san_cmd = true;
  hybrid_deployment = true;
  cm_hybrid_deployment = false;
  can_update_not_changeable_params = false;
  cow_snapshot_support = false;
  enable_online_promote = false;
  enable_vip = false;
  enable_pod_gc = true;
  enable_check_sum = false;
  enable_degrade = false;
  enable_redline = true;
  degrade_daemon_set = codes "a" ∷ (codes "b" ∷ []);
  degrade_deployment = [] ∷ [];
  disabled_wf_events = [] ∷ [];
  ssh_user = codes "root";
  ssh_password = codes "p";
  controller_node_label = codes "l";
}

abbrev half_hour : Policy
half_hour = record {
  is_inited = false;
  last_query_time = none;
  max_query_step_time = some 1800;
  last_value = none;
}

is_read : loaded (ok entries) ≡ ok read
unfolding read_config parse_map_item_to_bool_with_default parse_map_item_to_string
    parse_map_item_to_slice trim_space split_byte
is_read = refl

is_stale : cached_value 100 (some half_hour) ≡ none
unfolding cached_value
is_stale = refl

config_kept_example :
    (get_controller_config_with_policy 100 (some half_hour) (ok entries)
      ≡ (ok read, remember 100 read (some half_hour)))
    × (get_controller_config_with_policy 1899
          (remember 100 read (some half_hour))
          (err (codes "down"))
        ≡ (ok read, remember 100 read (some half_hour)))
config_kept_example =
    config_kept half_hour 1800 100 1899 read (ok entries) (err (codes "down")) refl (omega arith)
      is_stale is_read
