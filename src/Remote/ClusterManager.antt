-- ===== src/Remote/ClusterManager.antt =====
-- business/adapter/cluster_manager_client.go: the operations of a cluster manager's client. An action is
-- one entry of the trace; its HTTP rounds are what Remote/Http makes of the replies.
pub mod Requests
pub mod Switchover
pub mod Adding
pub mod Steps
pub mod Known
pub mod Pods
pub mod Promotion
use polar_db_stack_common.Common.{ℕ, Bool, true, false, List, [], ◌∷◌, ◌++◌, if◌then◌else◌}
use polar_db_stack_common.Common.Int.{ℤ}
use polar_db_stack_common.Common.Text.{Text, codes}
use polar_db_stack_common.Common.Decimal.{itoa}
use polar_db_stack_common.Common.Outcome.{Outcome, ok, err}
use polar_db_stack_common.Common.Trace.{Trace, ◌>>=◌, done, stop, outcome_of}
use polar_db_stack_common.Remote.Polling.{RemoteError, error}
use polar_db_stack_common.Remote.ClusterManager.Requests.{
  InsSpec, CmAction, global_set_leader, global_set_follower, global_promote, global_add_datamax,
  global_update_datamax, global_remove_datamax, global_remove_cluster, global_add_cluster,
  global_update_cluster, global_add_topology_edge, global_remove_topology_edge, global_demote,
  enable, add_ins, remove_ins, CmService, is_already_exist_error, is_not_exist_error,
  is_using_error, says, CmStep, unless_error, do_action, do_action_only, get_client_ip,
  client_ip_of,
}

pub record CmClient : Type 0 where
  pub ip : Text
  pub port : Text
  pub inited : Bool

abbrev pub cm_not_init_error : RemoteError
cm_not_init_error = error (codes "cluster manager client not init.")

-- The guard of every operation.
abbrev pub when_inited : {A : Type 0} → CmClient → CmStep A → CmStep A
when_inited m step = if m.inited then step else stop cm_not_init_error

module _ (svc : CmService) (m : CmClient) where
  unfoldable pub set_leader : CmStep (Unit {0})
  set_leader = when_inited m (do_action_only svc global_set_leader)

  unfoldable pub set_follower : CmStep (Unit {0})
  set_follower = when_inited m (do_action_only svc global_set_follower)

  unfoldable pub update_data_max : Text → Text → Text → ℤ → CmStep (Unit {0})
  update_data_max id ip pod_name port = when_inited m (do
    client_ip ← get_client_ip svc ip
    do_action_only svc (global_update_datamax id client_ip pod_name (itoa port)))

  unfoldable pub add_data_max : Text → Text → Text → ℤ → CmStep (Unit {0})
  add_data_max id ip pod_name port = when_inited m (do
    client_ip ← get_client_ip svc ip
    added ← outcome_of (do_action svc (global_add_datamax id client_ip pod_name (itoa port)))
    unless_error is_already_exist_error (update_data_max id ip pod_name port) added)

  unfoldable pub delete_data_max : Text → CmStep (Unit {0})
  delete_data_max id = when_inited m (do
    removed ← outcome_of (do_action svc (global_remove_datamax id))
    unless_error is_not_exist_error (done tt) removed)

  unfoldable pub delete_cluster : Text → CmStep (Unit {0})
  delete_cluster id = when_inited m (do
    removed ← outcome_of (do_action svc (global_remove_cluster id))
    unless_error is_not_exist_error (done tt) removed)

  unfoldable pub update_cluster : Text → Text → ℤ → Bool → CmStep (Unit {0})
  update_cluster id ip port is_client_ip = when_inited m (do
    client_ip ← client_ip_of svc is_client_ip ip
    do_action_only svc (global_update_cluster id client_ip (itoa port)))

  -- The request to add, after the cluster was removed.
  abbrev pub add_now : Text → Text → Text → ℤ → Bool → CmStep (Unit {0})
  add_now id client_ip ip port is_client_ip = do
    added ← outcome_of (do_action svc (global_add_cluster id client_ip (itoa port)))
    unless_error is_already_exist_error (update_cluster id ip port is_client_ip) added

  abbrev pub after_delete : CmStep (Unit {0}) → Outcome RemoteError (Unit {0}) → CmStep (Unit {0})
  after_delete add (ok u) = add
  after_delete add (err e) =
      if says is_using_error e then done tt else if says is_not_exist_error e then add else stop e

  unfoldable pub add_cluster : Text → Text → ℤ → Bool → CmStep (Unit {0})
  add_cluster id ip port is_client_ip = when_inited m (do
    client_ip ← client_ip_of svc is_client_ip ip
    deleted ← outcome_of (delete_cluster id)
    after_delete (add_now id client_ip ip port is_client_ip) deleted)

  unfoldable pub add_topology_edge : Text → Text → Text → CmStep (Unit {0})
  add_topology_edge up_stream_id down_stream_id copy_type =
      when_inited m
        (do_action_only svc (global_add_topology_edge up_stream_id down_stream_id copy_type))

  unfoldable pub delete_topology_edge : Text → Text → CmStep (Unit {0})
  delete_topology_edge up_stream_id down_stream_id = when_inited m (do
    removed ← outcome_of (do_action svc (global_remove_topology_edge up_stream_id down_stream_id))
    unless_error is_not_exist_error (done tt) removed)

  unfoldable pub demote_standby : Text → Text → ℤ → Text → Text → CmStep (Unit {0})
  demote_standby id ip port copy_type up_stream_id =
      when_inited m (do_action_only svc (global_demote id ip (itoa port) up_stream_id copy_type))

  unfoldable pub promote_standby : CmStep (Unit {0})
  promote_standby = when_inited m (do_action_only svc global_promote)

  unfoldable pub disable_ha : CmStep (Unit {0})
  disable_ha = when_inited m (do_action_only svc (enable 0))

  unfoldable pub enable_ha : CmStep (Unit {0})
  enable_ha = when_inited m (do_action_only svc (enable 1))

  abbrev pub ins_spec : Text → Text → Text → Text → Text → ℤ → InsSpec
  ins_spec id client_ip role sync host_name port = record {
    ip = client_ip;
    port = itoa port;
    role = role;
    sync = sync;
    pod_name = id;
    host_name = host_name;
  }

  unfoldable pub add_instance : Text → Text → Text → Text → Text → ℤ → Bool → CmStep (Unit {0})
  add_instance id ip role sync host_name port is_client_ip = when_inited m (do
    client_ip ← client_ip_of svc is_client_ip ip
    added ← outcome_of (do_action svc (add_ins (ins_spec id client_ip role sync host_name port)))
    unless_error is_already_exist_error (done tt) added)

  unfoldable pub remove_instance : Text → Text → Text → Text → Text → ℤ → Bool → CmStep (Unit {0})
  remove_instance id ip role sync host_name port is_client_ip = when_inited m (do
    client_ip ← client_ip_of svc is_client_ip ip
    removed ←
        outcome_of (do_action svc (remove_ins (ins_spec id client_ip role sync host_name port)))
    unless_error is_not_exist_error (done tt) removed)
