-- ===== src/Remote/Storage/Release.antt =====
-- Release of business/adapter/storage_manager.go: whose storage it releases, and that it returns.
use polar_db_stack_common.Common.{
  ℕ, ◌<◌, ◌≤◌, ◌≡◌, ◌≢◌, ◌↔◌, ◌⊎◌, inl, inr, refl, Bool, true, false, List, [], ◌∷◌, some, arith,
  Bool-cases,
}
use polar_db_stack_common.Common.Text.{Text, text_eq, text_eq_iff}
use polar_db_stack_common.Common.Outcome.{Outcome, ok, err}
use polar_db_stack_common.Common.Trace.{Returns, Returns-bind, Returns-if, record_entry, outcome_of}
use polar_db_stack_common.Engine.Wait.{tick}
use polar_db_stack_common.Remote.Polling.{RemoteError, poll_error, poll_returns}
use polar_db_stack_common.Remote.Storage.Requests.{
  StorageCall, find_service, of_text, wait_signal, ready, release, used_by, StorageService,
  request_workflow, request_pvc_used_by, request_check_ready,
}
use polar_db_stack_common.Remote.Storage.Start.{HasAddress, started, initialize-started}
use polar_db_stack_common.Remote.Storage.{
  StorageManager, other_cluster, is_missing, poll_request, after_release, release_now, owned,
  check_owner, initialize, release_storage,
}

-- What `owned` gives for an answer to the question who uses the storage.
owned_cases :
    (svc : StorageService) (fuel : ℕ) (name namespace cluster : Text)
    (answer : Outcome RemoteError Text) (seen log' : List StorageCall)
    (r : Outcome RemoteError (Unit {0}))
    → (owned svc fuel name namespace cluster answer seen ≡ some (r, log')) ↔ (
        ((answer ≡ ok cluster) × (release_now svc fuel name namespace seen ≡ some (r, log')))
        ⊎ ((owner : Text) × (answer ≡ ok owner)
            × (owner ≢ cluster)
            × (r ≡ err (other_cluster owner))
            × (log' ≡ seen))
        ⊎ ((e : RemoteError) × (answer ≡ err e)
            × (is_missing e ≡ true)
            × (r ≡ ok tt)
            × (log' ≡ seen))
        ⊎ ((e : RemoteError) × (answer ≡ err e)
            × (is_missing e ≡ false)
            × (r ≡ err e)
            × (log' ≡ seen)))
owned_cases svc fuel name namespace cluster (ok owner) seen log' r =
    elim (Bool-cases (text_eq owner cluster)) [
      | inl h ↦ ground (arith, text_eq_iff owner cluster)
      | inr h ↦ ground (arith, text_eq_iff owner cluster)
    ]
owned_cases svc fuel name namespace cluster (err e) seen log' r = elim (Bool-cases (is_missing e)) [
  | inl h ↦ ground (arith, h)
  | inr h ↦ ground (arith, h)
]

pub release_storage_iff :
    (svc : StorageService) (fuel : ℕ) (s : StorageManager) (name namespace cluster : Text)
    (log log' : List StorageCall) (r : Outcome RemoteError (Unit {0}))
    → HasAddress svc s log
    → cluster ≢ []
    → (release_storage svc fuel s name namespace cluster log ≡ some (r, log')) ↔ (
        ((request_pvc_used_by svc (started s log) ≡ ok cluster)
          × (release_now svc fuel name namespace (used_by name namespace ∷ started s log)
              ≡ some (r, log')))
        ⊎ ((owner : Text) × (request_pvc_used_by svc (started s log) ≡ ok owner)
            × (owner ≢ cluster)
            × (r ≡ err (other_cluster owner))
            × (log' ≡ used_by name namespace ∷ started s log))
        ⊎ ((e : RemoteError) × (request_pvc_used_by svc (started s log) ≡ err e)
            × (is_missing e ≡ true)
            × (r ≡ ok tt)
            × (log' ≡ used_by name namespace ∷ started s log))
        ⊎ ((e : RemoteError) × (request_pvc_used_by svc (started s log) ≡ err e)
            × (is_missing e ≡ false)
            × (r ≡ err e)
            × (log' ≡ used_by name namespace ∷ started s log)))
unfolding release_storage check_owner
release_storage_iff svc fuel s name namespace cluster log log' r has c =
    let named : text_eq cluster [] ≡ false = ground (arith, text_eq_iff cluster []) in
    let (s', begins) = initialize-started svc s log has in
    let asked =
      owned_cases svc fuel name namespace cluster (request_pvc_used_by svc (started s log))
        (used_by name namespace ∷ started s log) log' r in
    rw (begins, named) asked

poll_request-Returns :
    (svc : StorageService) (limit fuel : ℕ) (call : StorageCall)
    (answer : List StorageCall → Outcome RemoteError Bool)
    → ((l : List StorageCall) (n : ℕ) → limit ≤ n → svc.received l n ≢ tick)
    → limit < fuel
    → Returns (poll_request svc fuel call answer)
poll_request-Returns svc limit fuel call answer closes enough =
    Returns-bind
      (λ seen.
        poll_returns svc.received wait_signal (λ u l. (answer l, u, call ∷ l)) limit fuel tt seen
          closes enough)
      (λ r seen. ((poll_error r.1 r.0, seen), refl))

after_release-Returns :
    (svc : StorageService) (limit fuel : ℕ) (name namespace : Text)
    → ((l : List StorageCall) (n : ℕ) → limit ≤ n → svc.received l n ≢ tick)
    → limit < fuel
    → (released : Outcome RemoteError Text)
    → Returns (after_release svc fuel name namespace released)
after_release-Returns svc limit fuel name namespace closes enough (ok wf_id) =
    poll_request-Returns svc limit fuel (ready name namespace wf_id) (request_check_ready svc)
      closes enough
after_release-Returns svc limit fuel name namespace closes enough (err e) =
    Returns-if (is_missing e) (λ seen. (_, refl)) (λ seen. (_, refl))

release_now-Returns :
    (svc : StorageService) (limit fuel : ℕ) (name namespace : Text)
    → ((l : List StorageCall) (n : ℕ) → limit ≤ n → svc.received l n ≢ tick)
    → limit < fuel
    → Returns (release_now svc fuel name namespace)
unfolding release_now
release_now-Returns svc limit fuel name namespace closes enough =
    Returns-bind {step = outcome_of (record_entry (release name namespace) (request_workflow svc))}
      (λ seen. (_, refl)) (after_release-Returns svc limit fuel name namespace closes enough)

owned-Returns :
    (svc : StorageService) (limit fuel : ℕ) (name namespace cluster : Text)
    → ((l : List StorageCall) (n : ℕ) → limit ≤ n → svc.received l n ≢ tick)
    → limit < fuel
    → (answer : Outcome RemoteError Text) → Returns (owned svc fuel name namespace cluster answer)
owned-Returns svc limit fuel name namespace cluster closes enough (ok owner) =
    Returns-if (text_eq owner cluster)
      (release_now-Returns svc limit fuel name namespace closes enough) (λ seen. (_, refl))
owned-Returns svc limit fuel name namespace cluster closes enough (err e) =
    Returns-if (is_missing e) (λ seen. (_, refl)) (λ seen. (_, refl))

check_owner-Returns :
    (svc : StorageService) (limit fuel : ℕ) (name namespace cluster : Text)
    → ((l : List StorageCall) (n : ℕ) → limit ≤ n → svc.received l n ≢ tick)
    → limit < fuel
    → Returns (check_owner svc fuel name namespace cluster)
unfolding check_owner
check_owner-Returns svc limit fuel name namespace cluster closes enough =
    Returns-bind
      {step = outcome_of (record_entry (used_by name namespace) (request_pvc_used_by svc))}
      (λ seen. (_, refl)) (owned-Returns svc limit fuel name namespace cluster closes enough)

initialize-Returns : (svc : StorageService) (s : StorageManager) → Returns (initialize svc s)
unfolding initialize
initialize-Returns svc s =
    Returns-if s.inited (λ seen. (_, refl))
      (Returns-bind {step = record_entry find_service (λ seen. of_text (svc.address seen))}
        (λ seen. (_, refl)) (λ address seen. (_, refl)))

-- Where the channel of a wait gives no tick any more from some number of ticks on (it is closed, or the
-- context is done), Release returns, with an error or without, whatever the service and the API server
-- answer and whatever is asked before it.
pub release_storage-Returns :
    (svc : StorageService) (limit fuel : ℕ) (s : StorageManager) (name namespace cluster : Text)
    → ((l : List StorageCall) (n : ℕ) → limit ≤ n → svc.received l n ≢ tick)
    → limit < fuel
    → (log : List StorageCall)
    → (y : Outcome RemoteError (Unit {0}) × List StorageCall) × (release_storage svc fuel s name
          namespace cluster log
        ≡ some y)
unfolding release_storage
release_storage-Returns svc limit fuel s name namespace cluster closes enough =
    Returns-bind (initialize-Returns svc s) (λ s'.
      elim (text_eq cluster [])
        as (λ b. Returns (elim b [
          | true ↦ release_now svc fuel name namespace
          | false ↦ check_owner svc fuel name namespace cluster
        ])) [
          | true ↦ release_now-Returns svc limit fuel name namespace closes enough
          | false ↦ check_owner-Returns svc limit fuel name namespace cluster closes enough
        ])
