-- ===== src/Remote/Storage/Workflow.antt =====
-- The waits of business/adapter/storage_manager.go for a workflow: they end once the service says that
-- it is ready.
use polar_db_stack_common.Common.{
  ℕ, zero, suc, ◌+◌, ◌<◌, ◌≤◌, ◌≡◌, sym, ap, ◌∙◌, Bool, true, false, List, ◌∷◌, some, arith,
}
use polar_db_stack_common.Common.Text.{Text}
use polar_db_stack_common.Common.Outcome.{Outcome, ok}
use polar_db_stack_common.Engine.Wait.{tick, waited, wait_for, poll_immediate}
use polar_db_stack_common.Remote.Polling.{RemoteError, Poll, next_signal, ask, poll}
use polar_db_stack_common.Remote.Storage.Requests.{
  StorageCall, wait_signal, ready, use_volume, StorageService, request_workflow,
  request_check_ready,
}
use polar_db_stack_common.Remote.Storage.Start.{HasAddress, started, initialize-started}
use polar_db_stack_common.Remote.Storage.{StorageManager, poll_request, use_with_volume}

-- The trace after `k` rounds of a request and a tick.
abbrev pub after_rounds : StorageCall → ℕ → List StorageCall → List StorageCall
after_rounds call zero seen = seen
after_rounds call (suc k) seen = wait_signal ∷ call ∷ after_rounds call k seen

abbrev round :
    StorageCall
    → (List StorageCall → Outcome RemoteError Bool)
    → Unit {0}
    → List StorageCall
    → Outcome RemoteError Bool × Unit {0} × List StorageCall
round call answer u seen = (answer seen, u, call ∷ seen)

abbrev state_after : StorageCall → ℕ → List StorageCall → Poll StorageCall (Unit {0})
state_after call k seen = record { ticks = k; vars = tt; seen = call ∷ after_rounds call k seen }

-- From the state after `j` rounds to the one after `k`, `d` and one more are needed.
wait_for-ready :
    (svc : StorageService) (call : StorageCall)
    (answer : List StorageCall → Outcome RemoteError Bool) (seen : List StorageCall)
    (j d k fuel : ℕ)
    → k ≡ suc j + d
    → ((i : ℕ) → i < k → answer (after_rounds call i seen) ≡ ok false)
    → answer (after_rounds call k seen) ≡ ok true
    → ((i : ℕ) → i < k → svc.received (call ∷ after_rounds call i seen) i ≡ tick)
    → d < fuel
    → wait_for
        (next_signal svc.received wait_signal (round call answer))
        (ask svc.received wait_signal (round call answer))
        fuel
        (state_after call j seen)
      ≡ some (waited, state_after call k seen)
unfolding wait_for
wait_for-ready svc call answer seen j d k zero is waiting becomes ticks enough =
    absurd (omega arith)
wait_for-ready svc call answer seen j zero k (suc fuel) is waiting becomes ticks enough =
    let t = ticks j (omega arith) in
    let last : k ≡ suc j = omega arith in
    let now : answer (after_rounds call (suc j) seen) ≡ ok true =
      sym (ap (λ n. answer (after_rounds call n seen)) last) ∙ becomes in
    ground arith
wait_for-ready svc call answer seen j (suc d) k (suc fuel) is waiting becomes ticks enough =
    let t = ticks j (omega arith) in
    let not_yet = waiting (suc j) (omega arith) in
    let rest =
      wait_for-ready svc call answer seen (suc j) d k fuel (omega arith) waiting becomes ticks
        (omega arith) in
    ground arith

poll_request-ready :
    (svc : StorageService) (call : StorageCall)
    (answer : List StorageCall → Outcome RemoteError Bool) (seen : List StorageCall) (k fuel : ℕ)
    → ((i : ℕ) → i < k → answer (after_rounds call i seen) ≡ ok false)
    → answer (after_rounds call k seen) ≡ ok true
    → ((i : ℕ) → i < k → svc.received (call ∷ after_rounds call i seen) i ≡ tick)
    → k ≤ fuel
    → poll_request svc fuel call answer seen ≡ some (ok tt, call ∷ after_rounds call k seen)
unfolding poll poll_immediate
poll_request-ready svc call answer seen zero fuel waiting becomes ticks enough = ground arith
poll_request-ready svc call answer seen (suc k) fuel waiting becomes ticks enough =
    let not_yet = waiting zero (omega arith) in
    let rest =
      wait_for-ready svc call answer seen zero k (suc k) fuel (omega arith) waiting becomes ticks
        (omega arith) in
    ground arith

-- The trace after the request to use a storage, and `k` rounds of the question whether it is ready.
abbrev pub rounds_of_use :
    Text → Text → Text → Text → Text → Text → Bool → ℕ → List StorageCall → List StorageCall
rounds_of_use name namespace volume_id resource_name volume_type wf_id format k log =
    after_rounds (ready name namespace wf_id) k
      (use_volume name namespace volume_id resource_name volume_type format ∷ log)

-- UseStorage of a manager that has the service's address or can look it up succeeds where the service
-- takes the request and says, after `k` answers that the workflow is not ready and `k` ticks, that it is,
-- with fuel for `k` waits: with `k` waits, and no request after that answer.
pub use_with_volume-ready :
    (svc : StorageService) (fuel : ℕ) (s : StorageManager)
    (name namespace volume_id resource_name volume_type wf_id : Text) (format : Bool)
    (log : List StorageCall) (k : ℕ)
    → HasAddress svc s log
    → request_workflow svc (started s log) ≡ ok wf_id
    → ((i : ℕ)
        → i < k
        → request_check_ready svc (
            rounds_of_use name namespace volume_id resource_name volume_type wf_id format i
              (started s log))
          ≡ ok false)
    → request_check_ready svc (
        rounds_of_use name namespace volume_id resource_name volume_type wf_id format k
          (started s log))
      ≡ ok true
    → ((i : ℕ)
        → i < k
        → svc.received
            (ready name namespace wf_id
              ∷ rounds_of_use name namespace volume_id resource_name volume_type wf_id format i
                  (started s log))
            i
          ≡ tick)
    → k ≤ fuel
    → use_with_volume svc fuel s name namespace volume_id resource_name volume_type format log
      ≡ some (
        ok tt,
        ready name namespace wf_id
            ∷ rounds_of_use name namespace volume_id resource_name volume_type wf_id format k
                (started s log),
      )
unfolding use_with_volume
use_with_volume-ready svc fuel s name namespace volume_id resource_name volume_type wf_id format log
      k has wf waiting becomes ticks enough =
    let (s', begins) = initialize-started svc s log has in
    let polls =
      poll_request-ready svc (ready name namespace wf_id) (request_check_ready svc)
        (use_volume name namespace volume_id resource_name volume_type format ∷ started s log) k
        fuel waiting becomes ticks enough in
    rw (begins, wf) polls
