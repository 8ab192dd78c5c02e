-- ===== src/Config/Cached.antt =====
-- How long the configuration of utils/k8sutil/controller_config.go is kept.
use polar_db_stack_common.Common.{ℕ, ◌+◌, ◌<◌, ◌≡◌, ap, ◌∙◌, none, some, arith}
use polar_db_stack_common.Common.Text.{Text}
use polar_db_stack_common.Common.Dict.{Dict}
use polar_db_stack_common.Common.Outcome.{Outcome, ok}
use polar_db_stack_common.Config.{
  ControllerConfig, Policy, kept_value, cached_value, loaded, remember, after_load, value_or_load,
  get_controller_config_with_policy,
}

kept_value-before :
    (first next step : ℕ) (value : ControllerConfig)
    → next < first + step
    → kept_value next (some first) (some step) (some value) ≡ some value
kept_value-before first next step value before = ground (arith, before)

-- Let a call at `first`, without a value to keep, read the configuration `value`, under a policy with a
-- step. It gives `value`, and each call before the step has passed gives `value` too and leaves the
-- policy, whatever the API server would answer to it.
pub config_kept :
    (policy : Policy) (step first next : ℕ) (value : ControllerConfig)
    (answer later : Outcome Text (Dict Text))
    → policy.max_query_step_time ≡ some step
    → next < first + step
    → cached_value first (some policy) ≡ none
    → loaded answer ≡ ok value
    → (get_controller_config_with_policy first (some policy) answer
        ≡ (ok value, remember first value (some policy)))
      × (get_controller_config_with_policy next (remember first value (some policy)) later
          ≡ (ok value, remember first value (some policy)))
unfolding get_controller_config_with_policy cached_value
config_kept policy step first next value answer later limit before stale is = (
  (ap (λ kept. value_or_load kept first (some policy) answer) stale
      ∙ ap (after_load first (some policy)) is),
  ap (λ kept. value_or_load kept next (remember first value (some policy)) later)
      (ap (λ limit. kept_value next (some first) limit (some value)) limit
        ∙ kept_value-before first next step value before),
)
