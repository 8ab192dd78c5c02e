-- ===== src/Manager/Client.antt =====
-- The operations of business/adapter/manager_client.go.
use polar_db_stack_common.Common.{
  ℕ, false, ◌||◌, List, [], ◌∷◌, ◌++◌, Option, none, some, if◌then◌else◌,
}
use polar_db_stack_common.Common.Text.{Text, codes, has_substring}
use polar_db_stack_common.Common.Dict.{Dict}
use polar_db_stack_common.Common.Outcome.{Outcome, ok, err}
use polar_db_stack_common.Common.Trace.{◌>>=◌, ◌>>◌, done, stop, record_entry}
use polar_db_stack_common.Engine.Calls.{HealthErrorName, starting_up, container_not_found, unknown}
use polar_db_stack_common.Remote.ClusterManager.Pods.Objects.{KubeError, not_found, other_error}
use polar_db_stack_common.Remote.Polling.{RemoteError, error}
use polar_db_stack_common.Manager.Exec.{
  EnvKind, install_envs, setup_log_agent_envs, start_envs, graceful_stop_envs, lock_envs,
  grow_storage_envs, check_health_envs, system_identifier_envs, update_params_envs,
  replication_slot_envs, kill, get_pod, wait_for_pod_ready, ExecResult, PodExec, ManagerClient,
  ManagerStep, exec_cmd_in_pod_base, exec_out, exec_cmd_in_pod,
}

abbrev pub not_init_error : RemoteError
not_init_error = error (codes "manager client not init.")

-- `errors.Wrap(err, message)` of a fallible result.
abbrev pub wrapped {ℓ} : {A : Type ℓ} → Text → Outcome Text A → Outcome RemoteError A
wrapped message (ok a) = ok a
wrapped message (err e) = err (error (message ++ (codes ": " ++ e)))

abbrev pub failure : Option Text → Outcome RemoteError (Unit {0})
failure none = ok tt
failure (some e) = err (error e)

abbrev pub kill_result : ExecResult → Outcome RemoteError (Unit {0})
kill_result (out, stderr, none) = ok tt
kill_result (out, stderr, some e) = err (error (codes "exec kill 1 in pod error: " ++ e))

abbrev pub pod_result : Option KubeError → Outcome RemoteError (Unit {0})
pod_result none = ok tt
pod_result (some (not_found e)) = err (error (codes "pod not exist in RestartEngine: " ++ e))
pod_result (some (other_error e)) = err (error (codes "get pod error in RestartEngine: " ++ e))

-- `HealthCheckError` with its reason and its error, which is nil while the database is starting up.
pub record HealthReport : Type 0 where
  pub name : HealthErrorName
  pub reason : Text
  pub error : Option Text

-- How CheckHealth reads the result of its command.
unfoldable pub read_health : ExecResult → Option HealthReport
read_health (out, stderr, some e) =
    if has_substring (codes "container not found") e || has_substring (codes "pod does not exist") e
    then some (record {
      name = container_not_found;
      reason = codes "container not found";
      error = some e;
    })
    else some
        (record { name = unknown; reason = codes "exec command in pod error"; error = some e })
read_health (out, stderr, none) =
    if has_substring (codes "the database system is starting up") stderr
    then some (record {
      name = starting_up;
      reason = codes "the database system is starting up";
      error = none;
    })
    else none

module _ (x : PodExec) (m : ManagerClient) where
  abbrev pub when_inited : {A : Type 0} → ManagerStep A → ManagerStep A
  when_inited step = if m.inited then step else stop not_init_error

  -- The environment, or its error with the name of the function that failed.
  abbrev pub environs : EnvKind → Text → ManagerStep Text
  environs kind name seen = some (wrapped name (x.envs kind seen), seen)

  -- The body that most operations share.
  abbrev pub exec_with : ℕ → EnvKind → Text → ManagerStep (Unit {0})
  exec_with fuel kind name = do envs ← environs kind name; exec_cmd_in_pod x m fuel envs

  unfoldable pub install_engine : ℕ → ManagerStep (Unit {0})
  install_engine fuel =
      when_inited (exec_with fuel install_envs (codes "GetInstallEngineEnvirons error"))

  unfoldable pub setup_log_agent : ℕ → ManagerStep (Unit {0})
  setup_log_agent fuel =
      when_inited (exec_with fuel setup_log_agent_envs (codes "GetSetupLogAgentEnvirons error"))

  unfoldable pub start_engine : ℕ → ManagerStep (Unit {0})
  start_engine fuel = when_inited (exec_with fuel start_envs (codes "GetStartEngineEnvirons error"))

  unfoldable pub graceful_stop_engine : ℕ → ManagerStep (Unit {0})
  graceful_stop_engine fuel =
      when_inited (exec_with fuel graceful_stop_envs (codes "GetGracefulStopEngineEnvirons error"))

  unfoldable pub force_stop_engine : ManagerStep (Unit {0})
  force_stop_engine = when_inited (record_entry kill (λ seen. kill_result (x.run seen)))

  unfoldable pub restart_engine : ℕ → ManagerStep (Unit {0})
  restart_engine fuel = do
    graceful_stop_engine fuel
    record_entry get_pod (λ seen. pod_result (x.pod seen))
    force_stop_engine
    record_entry wait_for_pod_ready (λ seen. failure (x.wait_ready seen))
    start_engine fuel

  unfoldable pub lock_engine : ℕ → ManagerStep (Unit {0})
  lock_engine fuel = when_inited (exec_with fuel lock_envs (codes "GetLockEngineEnvirons error"))

  abbrev pub exec_all : ℕ → List Text → ManagerStep (Unit {0})
  exec_all fuel [] = done tt
  exec_all fuel (envs ∷ rest) = exec_cmd_in_pod x m fuel envs >> exec_all fuel rest

  unfoldable pub create_engine_account : ℕ → ManagerStep (Unit {0})
  create_engine_account fuel = when_inited (do
    envs_list ← (λ seen.
        some (wrapped (codes "GetCreateEngineAccountEnvirons error") (x.account_envs seen), seen))
    exec_all fuel envs_list)

  unfoldable pub update_engine_params : ℕ → Dict Text → ManagerStep (Unit {0})
  update_engine_params fuel engine_params = when_inited (
      exec_with fuel (update_params_envs engine_params)
        (codes "GetUpdateEngineParamsEnvirons error"))

  unfoldable pub grow_storage : ℕ → ManagerStep (Unit {0})
  grow_storage fuel =
      when_inited (exec_with fuel grow_storage_envs (codes "GetGrowStorageEnvirons error"))

  abbrev pub health_unknown : Text → Text → Option HealthReport
  health_unknown message e = some (record { name = unknown; reason = message; error = some e })

  -- The command of CheckHealth does not wait for the container, and so runs once.
  abbrev pub health_of : ℕ → Outcome Text Text → ManagerStep (Option HealthReport)
  health_of fuel (err e) = done (health_unknown (codes "GetCheckHealthEnvirons error") e)
  health_of fuel (ok envs) = do r ← exec_cmd_in_pod_base x m fuel envs false; done (read_health r)

  unfoldable pub check_health : ℕ → ManagerStep (Option HealthReport)
  check_health fuel seen =
      if m.inited
      then health_of fuel (x.envs check_health_envs seen) seen
      else some (
        ok (health_unknown (codes "manager client is not init") (codes "manager client not init.")),
        seen,
      )

  abbrev pub identifier_of : Option Text → Outcome RemoteError Text
  identifier_of (some id) = ok id
  identifier_of none = err (error (codes "system identifier is not found."))

  unfoldable pub get_primary_system_identifier : ℕ → ManagerStep Text
  get_primary_system_identifier fuel = when_inited (do
    envs ← environs system_identifier_envs (codes "GetPrimarySystemIdentifier error")
    out ← exec_out x m fuel envs
    λ seen. some (identifier_of (x.system_identifier out), seen))

  -- Without the guard of the others.
  unfoldable pub create_replication_slot : ℕ → Text → ManagerStep (Unit {0})
  create_replication_slot fuel ro_resource_name =
      exec_with fuel (replication_slot_envs ro_resource_name)
        (codes "GetCreateReplicationSlotEnvirons error")
