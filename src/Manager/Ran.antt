-- ===== src/Manager/Ran.antt =====
-- ExecCmdInPodBase of business/adapter/manager_client.go: a result without an error is that of a command.
use polar_db_stack_common.Common.{
  ℕ, ◌≡◌, ◌≢◌, ◌⊎◌, inl, inr, refl, sym, ap, ◌∙◌, Bool, true, false, List, ◌∷◌, Option, none, some,
  arith, Bool-cases,
}
use polar_db_stack_common.Common.Text.{Text}
use polar_db_stack_common.Common.Outcome.{ok}
use polar_db_stack_common.Common.Trace.{after_step-ok, done}
use polar_db_stack_common.Engine.Wait.{WaitResult, waited, failed, wait_timeout, wait_cancelled}
use polar_db_stack_common.Remote.Polling.{
  RemoteError, timeout_text, cancelled_text, poll, poll-waited,
}
use polar_db_stack_common.Remote.Polling.Kept.{poll-keeps}
use polar_db_stack_common.Manager.Exec.{
  ManagerCall, exec, check_pod_ready, wait_signal, ExecResult, PodExec, ManagerClient,
  check_need_retry, error_message, wrap_text, after_retry, retry_answer, retry_round, after_first,
  exec_cmd_in_pod_base,
}

abbrev has_error : ExecResult → Bool
has_error (out, stderr, none) = false
has_error (out, stderr, some e) = true

retry_answer-ok : (w : Bool) (r : ExecResult) → retry_answer w r ≡ ok true → has_error r ≡ false
retry_answer-ok w (out, stderr, none) e = refl
retry_answer-ok w (out, stderr, some x) e = elim (Bool-cases (check_need_retry w out stderr x)) [
  | inl h ↦ absurd (ground (arith, h, e))
  | inr h ↦ absurd (ground (arith, h, e))
]

retry_answer-error : (w : Bool) (r : ExecResult) → retry_answer w r ≢ ok true → has_error r ≡ true
retry_answer-error w (out, stderr, none) ne = absurd (ne refl)
retry_answer-error w (out, stderr, some x) ne = refl

-- A round that does not end the wait with success leaves a result with an error.
retry_round-keeps :
    (x : PodExec) (m : ManagerClient) (envs : Text) (w : Bool) (last : ExecResult)
    (seen : List ManagerCall)
    → has_error last ≡ true
    → (retry_round x m envs w last seen).0 ≢ ok true
    → has_error (retry_round x m envs w last seen).1 ≡ true
unfolding retry_round
retry_round-keeps x m envs w last seen holds ne = elim (Bool-cases (x.pod_ready seen)) [
  | inl h ↦
      let r =
        retry_answer-error w (x.run (check_pod_ready ∷ seen)) (λ k. ne (ground (arith, h, k))) in
      ground (arith, h, r)
  | inr h ↦ ground (arith, h, holds)
]

retry_round-ok :
    (x : PodExec) (m : ManagerClient) (envs : Text) (w : Bool) (last r : ExecResult)
    (seen seen' : List ManagerCall)
    → retry_round x m envs w last seen ≡ (ok true, r, seen')
    → (has_error r ≡ false)
      × (r ≡ x.run (check_pod_ready ∷ seen))
      × (seen' ≡ exec envs ∷ (check_pod_ready ∷ seen))
unfolding retry_round
retry_round-ok x m envs w last r seen seen' e = elim (Bool-cases (x.pod_ready seen)) [
  | inl h ↦
      let answered = retry_answer-ok w (x.run (check_pod_ready ∷ seen)) (ground (arith, h, e)) in
      let same : r ≡ x.run (check_pod_ready ∷ seen) = ground (arith, h, e) in
      (ap has_error same ∙ answered, same, ground (arith, h, e))
  | inr h ↦ absurd (ground (arith, h, e))
]

wrap_text-some : (message : Text) (e : Option Text) → wrap_text message e ≡ none → e ≡ none
wrap_text-some message none h = refl
wrap_text-some message (some e) h = cc

not_waited :
    (w : WaitResult RemoteError) (r : ExecResult)
    → (w ≡ waited) ⊎ ((w ≢ waited) × ((after_retry w r).2 ≡ none → has_error r ≡ false))
not_waited waited r = inl refl
not_waited (failed y) (out, stderr, e) =
    inr (
      (λ k. cc),
      (λ h. ap (λ x. has_error (out, stderr, x)) (wrap_text-some (error_message y) e h)),
    )
not_waited wait_timeout (out, stderr, e) =
    inr ((λ k. cc), (λ h. ap (λ x. has_error (out, stderr, x)) (wrap_text-some timeout_text e h)))
not_waited wait_cancelled (out, stderr, e) =
    inr ((λ k. cc), (λ h. ap (λ x. has_error (out, stderr, x)) (wrap_text-some cancelled_text e h)))

waited-clean : (r : ExecResult) → has_error r ≡ false → after_retry waited r ≡ r
waited-clean (out, stderr, none) h = refl
waited-clean (out, stderr, some e) h = cc

-- A wait that gives a result without an error ran the command as its last step, with this result.
retried-ok :
    (x : PodExec) (m : ManagerClient) (fuel : ℕ) (envs : Text) (w : Bool) (first r : ExecResult)
    (v : WaitResult RemoteError) (seen log' : List ManagerCall)
    → has_error first ≡ true
    → poll x.received wait_signal (retry_round x m envs w) fuel first seen ≡ some (ok (r, v), log')
    → (after_retry v r).2 ≡ none
    → (before : List ManagerCall) × (log' ≡ exec envs ∷ before)
      × (r ≡ x.run before)
      × (after_retry v r ≡ r)
retried-ok x m fuel envs w first r v seen log' failing polled without = elim (not_waited v r) [
  | inr (ne, cleared) ↦
      let kept =
        poll-keeps x.received wait_signal (retry_round x m envs w) has_error fuel first r v seen
          log' (retry_round-keeps x m envs w) failing ne polled in
      absurd (ground (arith, kept, cleared without))
  | inl is ↦
      let (last, l, held) =
        poll-waited x.received wait_signal (retry_round x m envs w) fuel first r seen log'
          (polled ∙ ap (λ u. some (ok (r, u), log')) is) in
      let (clean, same, log) = retry_round-ok x m envs w last r l log' held in
      (check_pod_ready ∷ l, log, same, ap (λ u. after_retry u r) is ∙ waited-clean r clean)
]

after_first-ok :
    (x : PodExec) (m : ManagerClient) (fuel : ℕ) (envs : Text) (w : Bool) (first r : ExecResult)
    (seen log' : List ManagerCall)
    → first ≡ x.run seen
    → after_first x m fuel envs w first (exec envs ∷ seen) ≡ some (ok r, log')
    → r.2 ≡ none
    → (before : List ManagerCall) × (log' ≡ exec envs ∷ before) × (x.run before ≡ r)
after_first-ok x m fuel envs w (out, stderr, none) r seen log' is e without =
    (seen, ground (arith, e), sym is ∙ ground (arith, e))
after_first-ok x m fuel envs w (out, stderr, some y) r seen log' is e without =
    elim (Bool-cases (check_need_retry w out stderr y)) [
      | inr h ↦ absurd (ground (arith, h, e, without))
      | inl h ↦
          let (rv, log₁, e₁, e₂) =
            after_step-ok
              (poll x.received wait_signal (retry_round x m envs w) fuel (out, stderr, some y)
                (exec envs ∷ seen))
              (λ r. done (after_retry r.1 r.0)) {b = r} {seen = log'} (ground (arith, h, e)) in
          let same : after_retry rv.1 rv.0 ≡ r = ground (arith, e₂) in
          let log : log₁ ≡ log' = ground (arith, e₂) in
          let (before, called, ran, kept) =
            retried-ok x m fuel envs w (out, stderr, some y) rv.0 rv.1 (exec envs ∷ seen) log₁ refl
              e₁ (ap (λ (t : ExecResult). t.2) same ∙ without) in
          (before, sym log ∙ called, sym ran ∙ (sym kept ∙ same))
    ]

-- A command whose result has no error: it was run as the last step of the call, and this was its result;
-- whatever the runs before it gave, and however the wait for the container went.
pub exec_ok_ran :
    (x : PodExec) (m : ManagerClient) (fuel : ℕ) (envs : Text) (wait_container : Bool)
    (r : ExecResult) (log log' : List ManagerCall)
    → exec_cmd_in_pod_base x m fuel envs wait_container log ≡ some (ok r, log')
    → r.2 ≡ none
    → (before : List ManagerCall) × (log' ≡ exec envs ∷ before) × (x.run before ≡ r)
unfolding exec_cmd_in_pod_base
exec_ok_ran x m fuel envs wait_container r log log' e without =
    after_first-ok x m fuel envs wait_container (x.run log) r log log' refl e without
