-- ===== src/Engine/Tests.antt =====
-- Runs of the engine operations: an engine that is healthy, and one that is not.
use polar_db_stack_common.Common.{
  ◌+◌, ◌≡◌, ◌↔◌, ◌⊎◌, refl, true, false, [], ◌∷◌, Option, none, some, arith, ◌==◌, if◌then◌else◌,
  length,
}
use polar_db_stack_common.Common.Int.{pos}
use polar_db_stack_common.Common.Text.{Text, codes, IsFree}
use polar_db_stack_common.Common.Decimal.{atoi}
use polar_db_stack_common.Common.Dict.{Dict}
use polar_db_stack_common.Common.Outcome.{Outcome, ok, err}
use polar_db_stack_common.Engine.Wait.{wait_for}
use polar_db_stack_common.Engine.Calls.{
  manager_set_ins, read_clock, next_tick, check_health, update_engine_params, restart_engine,
  graceful_stop_engine, delete_pod, Log, HealthCheckError, container_not_found, InsError,
  call_failed, World,
}
use polar_db_stack_common.Engine.Health.{check_health_with_timeout, poll_infinite, health_round}
use polar_db_stack_common.Engine.Ins.{
  DbIns, stop_engine_and_delete_pod, flush_params, do_health_check_with_timeout,
}
use polar_db_stack_common.Engine.Ins.Stopping.{asking, asked, stop_engine_and_delete_pod_iff}
use polar_db_stack_common.Engine.Ins.Ready.{Ticking, NeverStarting, health_check_returns}
use polar_db_stack_common.Engine.Ins.Flushing.{FoundHealthy, restart_answer, flush_params_healthy}
use polar_db_stack_common.Engine.Retry.{Rounds}
use polar_db_stack_common.Engine.Ids.{stored_id}
use polar_db_stack_common.Engine.Ids.Counter.{run_calls, consecutive, total, calls_count}

-- The clock shows the number of calls made.
abbrev world : Option HealthCheckError → World
world health = record {
  answer = λ log call. none;
  deleted = λ log. ok false;
  system_identifier = λ log. ok [];
  health = λ log. health;
  install_is_ready = λ log. (true, none);
  now = λ log. length log;
  context_done = λ log. false;
}

abbrev healthy : World
healthy = world none

abbrev sick : World
sick = world (some (record { name = container_not_found; error = codes "no container" }))

abbrev fresh : DbIns
fresh = record { installed = false; inited = false }

abbrev ready : DbIns
ready = record { installed = true; inited = true }

sick-Ticking : Ticking sick 1
sick-Ticking = (λ log. omega arith, λ call log. omega arith)

sick-NeverStarting : NeverStarting sick
sick-NeverStarting log e h = ground arith

health_check_returns_example :
    (r : Outcome InsError (Unit {0}) × Log) × (check_health_with_timeout sick 9 8 [] ≡ some r)
health_check_returns_example =
    health_check_returns sick 9 8 1 [] sick-Ticking sick-NeverStarting (omega arith)

abbrev last_probe : Log
last_probe = check_health ∷ read_clock ∷ next_tick ∷ read_clock ∷ []

probed : check_health_with_timeout healthy 3 8 [] ≡ some (ok tt, last_probe)
unfolding check_health_with_timeout wait_for poll_infinite health_round
probed = refl

-- The calls of the check: the instance is handed over twice, and the clock is read twice.
abbrev last_check : Log
last_check =
    check_health ∷ read_clock ∷ next_tick ∷ read_clock ∷ manager_set_ins ∷ manager_set_ins ∷ []

abbrev after_flush : Log
after_flush = restart_engine ∷ update_engine_params [] ∷ last_check

flushed : flush_params healthy ready 3 [] true [] ≡ some (ok tt, after_flush)
unfolding flush_params do_health_check_with_timeout check_health_with_timeout wait_for poll_infinite
    health_round
flushed = refl

flush_params_healthy_example :
    (checked : Log) × FoundHealthy healthy checked
    × (healthy.answer checked (update_engine_params []) ≡ none)
    × (after_flush ≡ (
        if true
        then restart_engine ∷ update_engine_params [] ∷ checked
        else update_engine_params [] ∷ checked))
    × (restart_answer healthy true (update_engine_params [] ∷ checked) ≡ none)
flush_params_healthy_example = flush_params_healthy healthy ready 3 [] true [] after_flush flushed

abbrev rounds : Rounds
rounds = record { done = λ i. false; condition = λ i. (false, some (codes "busy")) }

abbrev second_round : Rounds
second_round = record { done = λ i. false; condition = λ i. (i == 1, none) }

thousand : atoi (stored_id (some [])) ≡ some (pos 1000)
unfolding atoi stored_id
thousand = refl

calls_count_example :
    (updated : Dict Text) × (run_calls (λ d. true) [] (2 ∷ 3 ∷ [])
      ≡ ok (consecutive 1000 (total (2 ∷ 3 ∷ [])), updated))
    × (atoi (stored_id (some updated)) ≡ some (pos (1000 + total (2 ∷ 3 ∷ []))))
calls_count_example =
    calls_count (λ d. true) [] 1000 (2 ∷ 3 ∷ []) (λ d. refl) thousand (omega arith)

abbrev lost : Text
lost = codes "LOST"

abbrev reason : Text
reason = codes "lost"

lost-IsFree : IsFree b'|' lost
lost-IsFree = (ground arith, (ground arith, (ground arith, (ground arith, tt))))

reason-IsFree : IsFree b'|' reason
reason-IsFree = (ground arith, (ground arith, (ground arith, (ground arith, tt))))

abbrev outcome : Outcome InsError (Unit {0})
outcome = ok tt

abbrev stop_log : Log
stop_log = delete_pod ∷ graceful_stop_engine ∷ asked []

stop_engine_and_delete_pod_iff_example :
    (stop_engine_and_delete_pod healthy ready false [] ≡ some (ok tt, stop_log)) ↔ (
      ((e : Text) × (healthy.deleted (asking []) ≡ err e)
        × (outcome ≡ err (call_failed e))
        × (stop_log ≡ asked []))
      ⊎ ((healthy.deleted (asking []) ≡ ok true) × (outcome ≡ ok tt) × (stop_log ≡ asked []))
      ⊎ ((healthy.deleted (asking []) ≡ ok false)
          × (((e : Text) × (healthy.answer (asked []) graceful_stop_engine ≡ some e)
                × (false ≡ false)
                × (outcome ≡ err (call_failed e))
                × (stop_log ≡ graceful_stop_engine ∷ asked []))
              ⊎ (((healthy.answer (asked []) graceful_stop_engine ≡ none) ⊎ (false ≡ true))
                  × (stop_log ≡ delete_pod ∷ graceful_stop_engine ∷ asked [])
                  × (((healthy.answer (graceful_stop_engine ∷ asked []) delete_pod ≡ none)
                        × (outcome ≡ ok tt))
                      ⊎ ((e : Text) × (healthy.answer (graceful_stop_engine ∷ asked []) delete_pod
                            ≡ some e)
                          × (outcome ≡ err (call_failed e))))))))
stop_engine_and_delete_pod_iff_example =
    stop_engine_and_delete_pod_iff healthy ready false [] (ok tt) stop_log refl
