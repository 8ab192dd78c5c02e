-- ===== src/Remote/ClusterManager/Steps.antt =====
-- The parts that the operations of business/adapter/cluster_manager_client.go have in common: the guard,
-- and an action whose reply is not looked at.
use polar_db_stack_common.Common.{◌≡◌, inl, inr, refl, true, List, ◌∷◌, some, arith, Bool-cases}
use polar_db_stack_common.Common.Text.{Text}
use polar_db_stack_common.Common.Outcome.{Outcome, ok, err}
use polar_db_stack_common.Common.Trace.{after_step, done}
use polar_db_stack_common.Remote.Http.{do_action_common}
use polar_db_stack_common.Remote.Polling.{RemoteError}
use polar_db_stack_common.Remote.ClusterManager.Requests.{
  CmCall, CmAction, request, CmService, of_text, CmStep, request_cm, parse_cm_response,
  cm_condition, do_action, do_action_only,
}
use polar_db_stack_common.Remote.ClusterManager.{CmClient, when_inited}

-- What the rounds of an action come to.
abbrev pub answer : CmService → List CmCall → Outcome RemoteError Text
answer svc seen =
    of_text
      (do_action_common (request_cm (parse_cm_response svc.code)) cm_condition (svc.attempts seen))

pub when_inited-ok :
    {A : Type 0} (m : CmClient) (step : CmStep A) {a : A} {seen log' : List CmCall}
    → when_inited m step seen ≡ some (ok a, log')
    → (m.inited ≡ true) × (step seen ≡ some (ok a, log'))
when_inited-ok m step e = elim (Bool-cases m.inited) [
  | inl h ↦ (h, ground (arith, h))
  | inr h ↦ absurd (ground (arith, h))
]

done_after-ok :
    (r : Outcome RemoteError Text) {seen log' : List CmCall}
    → after_step (some (r, seen)) (λ body. done tt) ≡ some (ok tt, log')
    → (body : Text) × (r ≡ ok body) × (log' ≡ seen)
done_after-ok (ok body) e = (body, refl, ground arith)
done_after-ok (err x) e = cc

pub do_action_only-ok :
    (svc : CmService) (action : CmAction) {seen log' : List CmCall}
    → do_action_only svc action seen ≡ some (ok tt, log')
    → (body : Text) × (answer svc seen ≡ ok body) × (log' ≡ request action ∷ seen)
unfolding do_action
do_action_only-ok svc action {seen} e = done_after-ok (answer svc seen) e
