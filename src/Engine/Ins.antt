-- ===== src/Engine/Ins.antt =====
-- business/domain/db_ins.go: the operations of an engine instance. The fuel bounds the polling loops.
pub mod Stopping
pub mod Ready
pub mod Flushing
use polar_db_stack_common.Common.{
  ℕ, ◌*◌, ◌≡◌, Bool, true, false, not, ◌&&◌, List, [], ◌∷◌, Option, none, some, if◌then◌else◌,
}
use polar_db_stack_common.Common.Text.{Text}
use polar_db_stack_common.Common.Dict.{Dict}
use polar_db_stack_common.Common.Outcome.{Outcome, ok, err}
use polar_db_stack_common.Engine.Calls.{
  Call, pods_set_ins, manager_set_ins, create_pod_and_wait_ready, delete_pod, is_deleted,
  graceful_stop_engine, install_engine, get_primary_system_identifier, setup_log_agent,
  create_engine_account, start_engine, restart_engine, grow_storage, ensure_ins_type_meta,
  create_replication_slot, update_engine_params, Log, InsError, not_init, World, Run, ◌>>=◌, ◌>>◌,
  pure, fail, attempt, of_call, note, perform,
}
use polar_db_stack_common.Engine.Health.{
  check_health_with_timeout, check_install_progress_with_timeout,
}

-- The fields of DbIns that its operations branch on.
pub record DbIns : Type 0 where
  pub installed : Bool
  pub inited : Bool

-- `Init`, which also stores the two clients.
unfoldable pub init : DbIns → DbIns
init ins = record ins { inited = true }

unfoldable pub set_db_ins_installed : DbIns → DbIns
set_db_ins_installed ins = record ins { installed = true }

abbrev pub minute : ℕ
minute = 60000000000

abbrev pub require_init : DbIns → Run (Unit {0})
require_init ins = if ins.inited then pure tt else fail not_init

abbrev pub unless : Bool → Run (Unit {0}) → Run (Unit {0})
unless b m = if b then pure tt else m

module _ (w : World) (ins : DbIns) where
  -- A call of the manager, and one of the pods, after the instance is handed to it.
  abbrev pub manage : Call → Run (Unit {0})
  manage call = do require_init ins; note manager_set_ins; perform w call

  unfoldable pub create_pod : Run (Unit {0})
  create_pod = do
    require_init ins
    note pods_set_ins
    unless ins.installed (perform w create_pod_and_wait_ready)

  unfoldable pub delete_pod_of_ins : Run (Unit {0})
  delete_pod_of_ins = do require_init ins; note pods_set_ins; perform w delete_pod

  abbrev pub query_deleted : Run Bool
  query_deleted log = some (of_call (w.deleted log), is_deleted ∷ log)

  -- An error of the graceful stop ends the function unless it is to be ignored.
  abbrev pub stop_result : Bool → Outcome InsError (Unit {0}) → Run (Unit {0})
  stop_result ignore_stop_error (ok u) = pure tt
  stop_result ignore_stop_error (err e) = if ignore_stop_error then pure tt else fail e

  unfoldable pub stop_engine_and_delete_pod : Bool → Run (Unit {0})
  stop_engine_and_delete_pod ignore_stop_error = do
    require_init ins
    note pods_set_ins
    note manager_set_ins
    deleted ← query_deleted
    unless deleted (do
      stopped ← attempt (perform w graceful_stop_engine)
      stop_result ignore_stop_error stopped
      perform w delete_pod)

  unfoldable pub ensure_type_meta : Text → Run (Unit {0})
  ensure_type_meta ins_type = do
    require_init ins
    note pods_set_ins
    perform w (ensure_ins_type_meta ins_type)

  unfoldable pub install_db_ins : Run (Unit {0})
  install_db_ins = do
    require_init ins
    note manager_set_ins
    unless ins.installed (perform w install_engine)

  unfoldable pub primary_system_identifier : Run Text
  primary_system_identifier = do
    require_init ins
    note manager_set_ins
    λ log. some (of_call (w.system_identifier log), get_primary_system_identifier ∷ log)

  unfoldable pub setup_ins_log_agent : Run (Unit {0})
  setup_ins_log_agent = do
    require_init ins
    note manager_set_ins
    unless ins.installed (perform w setup_log_agent)

  unfoldable pub create_account : Run (Unit {0})
  create_account = manage create_engine_account

  unfoldable pub create_slot : Text → Run (Unit {0})
  create_slot ro_resource_name = manage (create_replication_slot ro_resource_name)

  unfoldable pub graceful_stop : Run (Unit {0})
  graceful_stop = manage graceful_stop_engine

  unfoldable pub start : Run (Unit {0})
  start = manage start_engine

  unfoldable pub grow : Run (Unit {0})
  grow = manage grow_storage

  unfoldable pub do_health_check_with_timeout : ℕ → ℕ → Run (Unit {0})
  do_health_check_with_timeout fuel timeout = do
    require_init ins
    note manager_set_ins
    check_health_with_timeout w fuel timeout

  unfoldable pub do_health_check : ℕ → Run (Unit {0})
  do_health_check fuel = do_health_check_with_timeout fuel (5 * minute)

  unfoldable pub wait_for_install_ready : ℕ → Run (Unit {0})
  wait_for_install_ready fuel = do
    require_init ins
    note manager_set_ins
    check_install_progress_with_timeout w fuel (2 * minute)

  -- An engine that is not healthy within a minute is started, and waited for.
  abbrev pub recover : ℕ → Outcome InsError (Unit {0}) → Run (Unit {0})
  recover fuel (ok u) = pure tt
  recover fuel (err e) = do perform w start_engine; do_health_check fuel

  unfoldable pub flush_params : ℕ → Dict Text → Bool → Run (Unit {0})
  flush_params fuel param_items restart = do
    require_init ins
    note manager_set_ins
    healthy ← attempt (do_health_check_with_timeout fuel minute)
    recover fuel healthy
    perform w (update_engine_params param_items)
    if restart then perform w restart_engine else pure tt

  unfoldable pub restart_ins : ℕ → Run (Unit {0})
  restart_ins fuel = do
    require_init ins
    note manager_set_ins
    perform w restart_engine
    do_health_check fuel

  -- The operations that need an initialised instance and return no value.
  abbrev pub operations : ℕ → Text → Dict Text → Bool → List (Run (Unit {0}))
  operations fuel name items flag =
      create_pod
      ∷ delete_pod_of_ins
      ∷ stop_engine_and_delete_pod flag
      ∷ ensure_type_meta name
      ∷ install_db_ins
      ∷ setup_ins_log_agent
      ∷ create_account
      ∷ create_slot name
      ∷ graceful_stop
      ∷ start
      ∷ grow
      ∷ do_health_check fuel
      ∷ wait_for_install_ready fuel
      ∷ flush_params fuel items flag
      ∷ restart_ins fuel
      ∷ []
