-- ===== src/Engine/Health.antt =====
-- checkHealthWithTimeout and checkInstallProgressWithTimeout of business/domain/db_ins.go: a check
-- every tick until it succeeds, the context ends, or the timeout has passed since the start or since
-- the last answer that the engine is still on its way. Times are nanoseconds.
use polar_db_stack_common.Common.{
  ℕ, ◌+◌, Bool, true, false, ◌∷◌, Option, none, some, if◌then◌else◌, ltb,
}
use polar_db_stack_common.Common.Text.{Text}
use polar_db_stack_common.Common.Outcome.{Outcome, ok, err}
use polar_db_stack_common.Engine.Wait.{
  Signal, tick, cancelled, WaitResult, waited, failed, wait_timeout, wait_cancelled, wait_for,
}
use polar_db_stack_common.Engine.Calls.{
  read_clock, next_tick, check_health, check_install_is_ready, Log, HealthErrorName, starting_up,
  container_not_found, unknown, InsError, timed_out, wait_was_cancelled, World, Run,
}

-- The variables that the condition's closure shares with the loop, and the log.
pub record Poll : Type 0 where
  pub latest_err : Option Text
  pub timeout_begin_time : ℕ
  pub log : Log

-- PollInfinite: a tick, unless the context ends; without a timeout the channel is never closed.
unfoldable pub poll_infinite : World → Poll → Signal × Poll
poll_infinite w st =
    if w.context_done st.log
    then (cancelled, st)
    else (tick, record st { log = next_tick ∷ st.log })

-- Only a starting engine begins the timeout anew.
unfoldable pub after_health_error : World → HealthErrorName → Poll → Poll
after_health_error w starting_up st = record st {
  timeout_begin_time = w.now st.log;
  log = read_clock ∷ st.log;
}
after_health_error w container_not_found st = st
after_health_error w unknown st = st

-- The condition of checkHealthWithTimeout.
unfoldable pub health_round : World → ℕ → Poll → Outcome (Unit {0}) Bool × Poll
health_round w timeout st =
    let log₁ : Log = read_clock ∷ st.log in
    if ltb (st.timeout_begin_time + timeout) (w.now st.log)
    then (err tt, record st { log = log₁ })
    else elim (w.health log₁) [
      | none ↦ (ok true, record st { log = check_health ∷ log₁ })
      | some e ↦ (
        ok false,
        after_health_error w e.name
            (record st { latest_err = some e.error; log = check_health ∷ log₁ }),
      )
    ]

-- An install that is not ready begins the timeout anew where the check had no error.
unfoldable pub after_install_check : World → Option Text → Poll → Poll
after_install_check w none st = record st {
  latest_err = none;
  timeout_begin_time = w.now st.log;
  log = read_clock ∷ st.log;
}
after_install_check w (some e) st = record st { latest_err = some e }

-- The condition of checkInstallProgressWithTimeout.
unfoldable pub install_round : World → ℕ → Poll → Outcome (Unit {0}) Bool × Poll
install_round w timeout st =
    let log₁ : Log = read_clock ∷ st.log in
    let st₂ : Poll = record st { log = check_install_is_ready ∷ log₁ } in
    if ltb (st.timeout_begin_time + timeout) (w.now st.log)
    then (err tt, record st { log = log₁ })
    else if (w.install_is_ready log₁).0
    then (ok true, st₂)
    else (ok false, after_install_check w (w.install_is_ready log₁).1 st₂)

-- The error that the check wraps; a wait without a timeout never ends with ErrWaitTimeout.
abbrev pub poll_outcome : WaitResult (Unit {0}) → Option Text → Outcome InsError (Unit {0})
poll_outcome waited latest = ok tt
poll_outcome (failed e) latest = err (timed_out latest)
poll_outcome wait_timeout latest = err (timed_out latest)
poll_outcome wait_cancelled latest = err wait_was_cancelled

abbrev pub poll_run :
    Option (WaitResult (Unit {0}) × Poll) → Option (Outcome InsError (Unit {0}) × Log)
poll_run none = none
poll_run (some (r, st)) = some (poll_outcome r st.latest_err, st.log)

abbrev pub poll_start : World → Log → Poll
poll_start w log = record {
  latest_err = none;
  timeout_begin_time = w.now log;
  log = read_clock ∷ log;
}

unfoldable pub check_health_with_timeout : World → ℕ → ℕ → Run (Unit {0})
check_health_with_timeout w fuel timeout log =
    poll_run (wait_for (poll_infinite w) (health_round w timeout) fuel (poll_start w log))

unfoldable pub check_install_progress_with_timeout : World → ℕ → ℕ → Run (Unit {0})
check_install_progress_with_timeout w fuel timeout log =
    poll_run (wait_for (poll_infinite w) (install_round w timeout) fuel (poll_start w log))
