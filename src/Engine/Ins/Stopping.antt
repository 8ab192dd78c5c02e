-- ===== src/Engine/Ins/Stopping.antt =====
-- The order of the calls in StopEngineAndDeletePod of business/domain/db_ins.go, and the guard that
-- every operation of an instance begins with.
use polar_db_stack_common.Common.{ℕ, ◌≡◌, ◌↔◌, ◌⊎◌, Bool, true, false, ◌∷◌, none, some, All, arith}
use polar_db_stack_common.Common.Text.{Text}
use polar_db_stack_common.Common.Dict.{Dict}
use polar_db_stack_common.Common.Outcome.{Outcome, ok, err}
use polar_db_stack_common.Engine.Calls.{
  pods_set_ins, manager_set_ins, delete_pod, is_deleted, graceful_stop_engine, Log, InsError,
  not_init, call_failed, World,
}
use polar_db_stack_common.Engine.Ins.{
  DbIns, operations, create_pod, delete_pod_of_ins, stop_engine_and_delete_pod, ensure_type_meta,
  install_db_ins, setup_ins_log_agent, create_account, create_slot, graceful_stop, start, grow,
  do_health_check, do_health_check_with_timeout, wait_for_install_ready, flush_params, restart_ins,
}

-- An operation of an instance that is not initialised fails with "instance not init." and calls
-- nothing, whatever its arguments.
pub uninitialised_calls_nothing :
    (w : World) (ins : DbIns) (fuel : ℕ) (name : Text) (items : Dict Text) (flag : Bool) (log : Log)
    → ins.inited ≡ false
    → All (λ run. run log ≡ some (err not_init, log)) (operations w ins fuel name items flag)
unfolding create_pod delete_pod_of_ins stop_engine_and_delete_pod ensure_type_meta install_db_ins
    setup_ins_log_agent create_account create_slot graceful_stop start grow do_health_check
    do_health_check_with_timeout wait_for_install_ready flush_params restart_ins
uninitialised_calls_nothing w ins fuel name items flag log h = (
  ground arith,
  (
    ground arith,
    (
      ground arith,
      (
        ground arith,
        (
          ground arith,
          (
            ground arith,
            (
              ground arith,
              (
                ground arith,
                (
                  ground arith,
                  (
                    ground arith,
                    (
                      ground arith,
                      (ground arith, (ground arith, (ground arith, (ground arith, tt)))),
                    ),
                  ),
                ),
              ),
            ),
          ),
        ),
      ),
    ),
  ),
)

-- The log in which StopEngineAndDeletePod asks whether the pod is deleted, and the one after it.
abbrev pub asking : Log → Log
asking log = manager_set_ins ∷ pods_set_ins ∷ log

abbrev pub asked : Log → Log
asked log = is_deleted ∷ asking log

-- On an initialised instance StopEngineAndDeletePod asks whether the pod is deleted; on an error or
-- a deleted pod it stops there, without a call of the engine. Otherwise it stops the engine, and it
-- deletes the pod, as its last call and with that call's result, exactly where the stop succeeded
-- or its error is to be ignored.
pub stop_engine_and_delete_pod_iff :
    (w : World) (ins : DbIns) (ignore : Bool) (log : Log) (r : Outcome InsError (Unit {0}))
    (log' : Log)
    → ins.inited ≡ true
    → (stop_engine_and_delete_pod w ins ignore log ≡ some (r, log')) ↔ (
        ((e : Text) × (w.deleted (asking log) ≡ err e)
          × (r ≡ err (call_failed e))
          × (log' ≡ asked log))
        ⊎ ((w.deleted (asking log) ≡ ok true) × (r ≡ ok tt) × (log' ≡ asked log))
        ⊎ ((w.deleted (asking log) ≡ ok false)
            × (((e : Text) × (w.answer (asked log) graceful_stop_engine ≡ some e)
                  × (ignore ≡ false)
                  × (r ≡ err (call_failed e))
                  × (log' ≡ graceful_stop_engine ∷ asked log))
                ⊎ (((w.answer (asked log) graceful_stop_engine ≡ none) ⊎ (ignore ≡ true))
                    × (log' ≡ delete_pod ∷ graceful_stop_engine ∷ asked log)
                    × (((w.answer (graceful_stop_engine ∷ asked log) delete_pod ≡ none)
                          × (r ≡ ok tt))
                        ⊎ ((e : Text) × (w.answer (graceful_stop_engine ∷ asked log) delete_pod
                              ≡ some e)
                            × (r ≡ err (call_failed e))))))))
unfolding stop_engine_and_delete_pod
stop_engine_and_delete_pod_iff w ins ignore log r log' h = ground arith
