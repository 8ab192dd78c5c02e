-- ===== src/Engine/Ins/Flushing.antt =====
-- FlushParams and Restart of business/domain/db_ins.go: what the engine has been found to be before
-- its parameters change, and after a restart.
use mathlib.Core.Path.{subst}
use polar_db_stack_common.Common.{
  ℕ, ◌≡◌, refl, sym, ap, ◌∙◌, ◌*◌, Bool, true, false, ◌∷◌, Option, none, some, arith, if◌then◌else◌,
}
use polar_db_stack_common.Common.Text.{Text}
use polar_db_stack_common.Common.Dict.{Dict}
use polar_db_stack_common.Common.Outcome.{Outcome, ok, err}
use polar_db_stack_common.Engine.Calls.{
  check_health, update_engine_params, restart_engine, start_engine, manager_set_ins, Log, InsError,
  World, bind_run-ok, observe-ok, perform-ok, perform, pure,
}
use polar_db_stack_common.Engine.Ins.{
  DbIns, minute, recover, do_health_check_with_timeout, do_health_check, flush_params, restart_ins,
  require_init,
}
use polar_db_stack_common.Engine.Ins.Ready.{checked_healthy}

-- The last call of a log is a health check, and the engine was healthy.
abbrev pub FoundHealthy : World → Log → Type 0
FoundHealthy w log = (before : Log) × (log ≡ check_health ∷ before) × (w.health before ≡ none)

do_health_check_with_timeout-healthy :
    (w : World) (ins : DbIns) (fuel timeout : ℕ) (log log' : Log)
    → do_health_check_with_timeout w ins fuel timeout log ≡ some (ok tt, log')
    → FoundHealthy w log'
unfolding do_health_check_with_timeout
do_health_check_with_timeout-healthy w ins fuel timeout log log' e =
    let (a, log₁, i, rest) = bind_run-ok (require_init ins log) _ e in
    checked_healthy w fuel timeout (manager_set_ins ∷ log₁) log' rest

recover-healthy :
    (w : World) (ins : DbIns) (fuel : ℕ) (r : Outcome InsError (Unit {0})) (log log' : Log)
    → (r ≡ ok tt → FoundHealthy w log)
    → recover w ins fuel r log ≡ some (ok tt, log')
    → FoundHealthy w log'
unfolding do_health_check
recover-healthy w ins fuel (ok u) log log' h e =
    let same : log ≡ log' = ground arith in subst (FoundHealthy w) same (h refl)
recover-healthy w ins fuel (err x) log log' h e =
    let (a, log₁, i, rest) = bind_run-ok (perform w start_engine log) _ e in
    do_health_check_with_timeout-healthy w ins fuel (5 * minute) log₁ log' rest

require_init-log :
    (ins : DbIns) (log log' : Log) {u : Unit {0}}
    → require_init ins log ≡ some (ok u, log')
    → log ≡ log'
require_init-log ins log log' e = ground arith

-- The error of the restart, if one was asked for.
abbrev pub restart_answer : World → Bool → Log → Option Text
restart_answer w restart log = if restart then w.answer log restart_engine else none

restarting :
    (w : World) (restart : Bool) (log log' : Log)
    → (if restart then perform w restart_engine else pure tt) log ≡ some (ok tt, log')
    → (log' ≡ (if restart then restart_engine ∷ log else log))
      × (restart_answer w restart log ≡ none)
restarting w true log log' e =
    let (accepted, is) = perform-ok w restart_engine log log' e in (is, accepted)
restarting w false log log' e = (ground arith, refl)

-- Where FlushParams returns nil, the engine's parameters were updated without an error right after a
-- health check that found the engine healthy, and then it was restarted, without an error, exactly
-- where that was asked for; nothing else follows the check.
pub flush_params_healthy :
    (w : World) (ins : DbIns) (fuel : ℕ) (items : Dict Text) (restart : Bool) (log log' : Log)
    → flush_params w ins fuel items restart log ≡ some (ok tt, log')
    → (checked : Log) × FoundHealthy w checked
      × (w.answer checked (update_engine_params items) ≡ none)
      × (log' ≡ (
          if restart
          then restart_engine ∷ update_engine_params items ∷ checked
          else update_engine_params items ∷ checked))
      × (restart_answer w restart (update_engine_params items ∷ checked) ≡ none)
unfolding flush_params
flush_params_healthy w ins fuel items restart log log' e =
    let (a, log₁, i, rest₁) = bind_run-ok (require_init ins log) _ e in
    let (healthy, log₂, tried, rest₂) = bind_run-ok _ _ rest₁ in
    let (b, checked, recovered, rest₃) = bind_run-ok _ _ rest₂ in
    let (c, log₄, updated, rest₄) = bind_run-ok _ _ rest₃ in
    let (accepted, log₄_eq) = perform-ok w (update_engine_params items) checked log₄ updated in
    let restarted = restarting w restart log₄ log' rest₄ in
    (
      checked,
      recover-healthy w ins fuel healthy log₂ checked
          (λ was_ok.
            do_health_check_with_timeout-healthy w ins fuel minute (manager_set_ins ∷ log₁) log₂
              (observe-ok _ tried ∙ ap (λ r. some (r, log₂)) was_ok))
          recovered,
      accepted,
      restarted.0 ∙ ap (λ (l : Log). if restart then restart_engine ∷ l else l) log₄_eq,
      ap (restart_answer w restart) (sym log₄_eq) ∙ restarted.1,
    )

-- Where Restart returns nil, the engine was restarted without an error and found healthy afterwards,
-- by the last call.
pub restart_healthy :
    (w : World) (ins : DbIns) (fuel : ℕ) (log log' : Log)
    → restart_ins w ins fuel log ≡ some (ok tt, log')
    → (w.answer (manager_set_ins ∷ log) restart_engine ≡ none) × FoundHealthy w log'
unfolding restart_ins do_health_check
restart_healthy w ins fuel log log' e =
    let (a, log₁, i, rest₁) = bind_run-ok (require_init ins log) _ e in
    let (b, log₂, restarted, rest₂) = bind_run-ok _ _ rest₁ in
    let (accepted, log₂_eq) = perform-ok w restart_engine _ log₂ restarted in
    let same : log ≡ log₁ = require_init-log ins log log₁ i in
    (
      subst (λ l. w.answer (manager_set_ins ∷ l) restart_engine ≡ none) (sym same) accepted,
      do_health_check_with_timeout-healthy w ins fuel (5 * minute) log₂ log' rest₂,
    )
