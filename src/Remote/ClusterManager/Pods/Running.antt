-- ===== src/Remote/ClusterManager/Pods/Running.antt =====
-- The pods of a cluster manager in business/adapter/cluster_manager_client.go: which one runs, which one
-- is moved, and when all are deleted.
use polar_db_stack_common.Common.{
  ℕ, ◌≡◌, ◌≢◌, ◌↔◌, ◌⊎◌, inl, inr, refl, sym, ap, ◌∙◌, Bool, true, List, [], ◌∷◌, Option, none,
  some, arith, Bool-cases,
}
use polar_db_stack_common.Common.Text.{Text, text_eq, text_eq_iff}
use polar_db_stack_common.Common.Outcome.{Outcome, ok, err}
use polar_db_stack_common.Common.Trace.{after_step-ok}
use polar_db_stack_common.Remote.Polling.{RemoteError, panicked, poll, poll_error-ok, poll-waited}
use polar_db_stack_common.Engine.Wait.{poll_immediate}
use polar_db_stack_common.Remote.ClusterManager.Pods.Objects.{
  PodPhase, pod_running, pod_pending, other_phase, CmPod, PodCall, list_pods, wait_signal,
  delete_pod, KubeError, not_found, other_error, Kube,
}
use polar_db_stack_common.Remote.ClusterManager.Pods.{
  candidates, count_text, if_running, only_running, running_of, get_running_cm_pod,
  wait_for_new_cm_pod_ready, after_delete, move_first, ensure_affinity, deleted_answer,
  wait_for_cm_deleted,
}

if_running-ok :
    (pod : CmPod) (phase : PodPhase) (text : Text) (p : CmPod)
    → (if_running pod phase text ≡ ok p) ↔ ((pod ≡ p) × (phase ≡ pod_running))
if_running-ok pod pod_running text p = ground arith
if_running-ok pod pod_pending text p = ground arith
if_running-ok pod other_phase text p = ground arith

only_running-ok :
    (pods : List CmPod) (p : CmPod)
    → (only_running pods ≡ ok p) ↔ ((pods ≡ p ∷ []) × (p.phase ≡ pod_running))
only_running-ok [] p = ground arith
only_running-ok (pod ∷ []) p =
    let one = if_running-ok pod pod.phase (count_text (pod ∷ [])) p in
    (
      (λ e.
          let (same, phase) = one.0 e in
          (ap (λ q. q ∷ []) same, sym (ap (λ (q : CmPod). q.phase) same) ∙ phase)),
      (λ h.
          let same : pod ≡ p = ground (arith, h) in
          one.1 (same, ap (λ (q : CmPod). q.phase) same ∙ h.1)),
    )
only_running-ok (pod ∷ next ∷ pods) p = ground arith

running_of-ok :
    (r : Outcome KubeError (List CmPod)) (p : CmPod)
    → running_of r ≡ ok p
    → (pods : List CmPod) × (r ≡ ok pods) × (candidates pods ≡ p ∷ []) × (p.phase ≡ pod_running)
running_of-ok (ok pods) p e =
    let (one, phase) = (only_running-ok (candidates pods) p).0 e in (pods, refl, one, phase)
running_of-ok (err x) p e = cc

-- A pod of the manager counts as the running one exactly where it is the only one of the list that is
-- running or pending and is not being deleted, and it is running.
pub get_running_cm_pod_iff :
    (k : Kube) (seen : List PodCall) (pods : List CmPod) (p : CmPod)
    → k.pods seen ≡ ok pods
    → ((get_running_cm_pod k seen).0 ≡ ok p)
      ↔ ((candidates pods ≡ p ∷ []) × (p.phase ≡ pod_running))
unfolding get_running_cm_pod
get_running_cm_pod_iff k seen pods p read =
    let one = only_running-ok (candidates pods) p in
    let by = ap running_of read in ((λ e. one.0 (sym by ∙ e)), (λ h. by ∙ one.1 h))

new_pod_cases :
    (r : Outcome RemoteError CmPod) → ((p : CmPod) × (r ≡ ok p)) ⊎ ((e : RemoteError) × (r ≡ err e))
new_pod_cases (ok p) = inl (p, refl)
new_pod_cases (err e) = inr (e, refl)

-- The wait for a new pod of the manager after the old one's deletion is decided by its first look at the
-- pods: with a running pod, which may be the old one, it succeeds, and without one it panics on the nil
-- pod.
pub new_pod_wait_never_waits :
    (k : Kube) (fuel : ℕ) (seen : List PodCall)
    → wait_for_new_cm_pod_ready k fuel seen ≡ (elim ((get_running_cm_pod k seen).0) [
      | ok p ↦ some (ok tt, list_pods ∷ seen)
      | err e ↦ some (err panicked, list_pods ∷ seen)
    ])
unfolding wait_for_new_cm_pod_ready poll poll_immediate get_running_cm_pod
new_pod_wait_never_waits k fuel seen = elim (new_pod_cases (get_running_cm_pod k seen).0) [
  | inl (p, h) ↦ ground (arith, h)
  | inr (e, h) ↦ ground (arith, h)
]

after_delete_cases :
    (k : Kube) (fuel : ℕ) (r : Option KubeError) (seen log' : List PodCall)
    → (after_delete k fuel r seen ≡ some (ok tt, log')) ↔ (
        ((r ≡ none) × (log' ≡ seen))
        ⊎ ((e : Text) × (r ≡ some (not_found e))
            × (wait_for_new_cm_pod_ready k fuel seen ≡ some (ok tt, log'))))
after_delete_cases k fuel none seen log' = ground arith
after_delete_cases k fuel (some (not_found e)) seen log' = ((λ h. inr (e, refl, h)), ground arith)
after_delete_cases k fuel (some (other_error e)) seen log' = ground arith

move_first_cases :
    (k : Kube) (fuel : ℕ) (host : Text) (pod : CmPod) (pods : List CmPod) (seen log' : List PodCall)
    → (move_first k fuel host (pod ∷ pods) seen ≡ some (ok tt, log')) ↔ (
        ((pod.node_name ≢ host) × (log' ≡ seen))
        ⊎ ((pod.node_name ≡ host) × (k.deleted seen ≡ none) × (log' ≡ delete_pod pod.name ∷ seen))
        ⊎ ((e : Text) × (pod.node_name ≡ host)
            × (k.deleted seen ≡ some (not_found e))
            × (wait_for_new_cm_pod_ready k fuel (delete_pod pod.name ∷ seen) ≡ some (ok tt, log'))))
move_first_cases k fuel host pod pods seen log' =
    let same = text_eq_iff host pod.node_name in
    let cases = after_delete_cases k fuel (k.deleted seen) (delete_pod pod.name ∷ seen) log' in
    elim (Bool-cases (text_eq host pod.node_name)) [
      | inl h ↦ let eq : pod.node_name ≡ host = sym (same.0 h) in ground (arith, h, eq, cases)
      | inr h ↦
          let ne : pod.node_name ≢ host = λ q. absurd (ground (arith, h, same.1 (sym q))) in
          ground (arith, h, ne)
    ]

-- EnsureAffinity, where the manager has a pod: it returns nil exactly where the first pod is not on the
-- host of the RW, and then it only looks at the pods; or where it is and the API server takes its
-- deletion, and then without a wait; or where the API server says that the pod is not found and the wait
-- for a new one succeeds.
pub ensure_affinity_iff :
    (k : Kube) (fuel : ℕ) (host : Text) (pod : CmPod) (pods : List CmPod) (log log' : List PodCall)
    → k.pods log ≡ ok (pod ∷ pods)
    → (ensure_affinity k fuel host log ≡ some (ok tt, log')) ↔ (
        ((pod.node_name ≢ host) × (log' ≡ list_pods ∷ log))
        ⊎ ((pod.node_name ≡ host)
            × (k.deleted (list_pods ∷ log) ≡ none)
            × (log' ≡ delete_pod pod.name ∷ (list_pods ∷ log)))
        ⊎ ((e : Text) × (pod.node_name ≡ host)
            × (k.deleted (list_pods ∷ log) ≡ some (not_found e))
            × (wait_for_new_cm_pod_ready k fuel (delete_pod pod.name ∷ (list_pods ∷ log))
                ≡ some (ok tt, log'))))
unfolding ensure_affinity
ensure_affinity_iff k fuel host pod pods log log' read =
    let cases = move_first_cases k fuel host pod pods (list_pods ∷ log) log' in
    ground (arith, read, cases)

deleted_answer-ok :
    (r : Outcome KubeError (List CmPod))
    → deleted_answer r ≡ ok true
    → (r ≡ ok []) ⊎ ((e : Text) × (r ≡ err (not_found e)))
deleted_answer-ok (ok []) h = inl refl
deleted_answer-ok (ok (pod ∷ pods)) h = cc
deleted_answer-ok (err (not_found e)) h = inr (e, refl)
deleted_answer-ok (err (other_error e)) h = cc

-- A wait for the pods' deletion that succeeds: its last call is a look at the pods, which finds none.
pub wait_for_cm_deleted-gone :
    (k : Kube) (fuel : ℕ) (log log' : List PodCall)
    → wait_for_cm_deleted k fuel log ≡ some (ok tt, log')
    → (before : List PodCall) × (log' ≡ list_pods ∷ before)
      × ((k.pods before ≡ ok []) ⊎ ((e : Text) × (k.pods before ≡ err (not_found e))))
unfolding wait_for_cm_deleted
wait_for_cm_deleted-gone k fuel log log' e =
    let round : Unit {0} → List PodCall → Outcome RemoteError Bool × Unit {0} × List PodCall =
      λ u seen. (deleted_answer (k.pods seen), u, list_pods ∷ seen) in
    let (r, log₁, e₁, e₂) = after_step-ok (poll k.received wait_signal round fuel tt log) _ e in
    let (w, same) = poll_error-ok r.1 r.0 tt (ground arith) in
    let (u, before, held) =
      poll-waited k.received wait_signal round fuel tt r.0 log log' (ground (arith, w, e₁, e₂)) in
    (before, ground (arith, held), deleted_answer-ok (k.pods before) (ground (arith, held)))
