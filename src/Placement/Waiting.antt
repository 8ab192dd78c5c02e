-- ===== src/Placement/Waiting.antt =====
-- The wait for a pod's deletion of utils/k8sutil/k8sutil.go, and what DeletePod of
-- business/adapter/pod_manager_base.go makes of it.
use polar_db_stack_common.Common.{
  ℕ, zero, suc, ◌+◌, ◌<◌, ◌≡◌, ◌≢◌, ◌⊎◌, inl, inr, refl, ap, ◌∙◌, true, none, some, arith,
}
use polar_db_stack_common.Common.Text.{Text}
use polar_db_stack_common.Placement.Deleting.{
  Received, modified, deleted, cancelled, unexpected, PodApi, watch_loop, wait_for_pod_deleted,
  k8s_delete_pod, InsPod, cleared, delete_ins_pod,
}

received_cases :
    (r : Received)
    → (r ≡ modified) ⊎ (r ≡ deleted) ⊎ (r ≡ cancelled) ⊎ ((kind : Text) × (r ≡ unexpected kind))
received_cases modified = inl refl
received_cases deleted = inr (inl refl)
received_cases cancelled = inr (inr (inl refl))
received_cases (unexpected kind) = inr (inr (inr (kind, refl)))

watch_loop-deleted :
    (received : ℕ → Received) (i d k fuel : ℕ)
    → k ≡ i + d
    → received k ≡ deleted
    → ((j : ℕ) → j < k → received j ≢ cancelled)
    → d < fuel
    → watch_loop fuel received i ≡ some none
unfolding watch_loop
watch_loop-deleted received i d k zero is now goes_on enough = absurd (omega arith)
watch_loop-deleted received i zero k (suc fuel) is now goes_on enough =
    let here : received i ≡ deleted = ap received (omega (arith, is)) ∙ now in ground (arith, here)
watch_loop-deleted received i (suc d) k (suc fuel) is now goes_on enough =
    let rest =
      watch_loop-deleted received (suc i) d k fuel (omega arith) now goes_on (omega arith) in
    elim (received_cases (received i)) [
      | inl h ↦ ground (arith, h, rest)
      | inr (inl h) ↦ ground (arith, h)
      | inr (inr (inl h)) ↦ absurd (goes_on i (omega arith) h)
      | inr (inr (inr (kind, h))) ↦ ground (arith, h, rest)
    ]

watch_loop-endless :
    (received : ℕ → Received) (fuel i : ℕ)
    → ((j : ℕ) → received j ≢ deleted)
    → ((j : ℕ) → received j ≢ cancelled)
    → watch_loop fuel received i ≡ none
unfolding watch_loop
watch_loop-endless received zero i never_deleted never_cancelled = refl
watch_loop-endless received (suc fuel) i never_deleted never_cancelled =
    let rest = watch_loop-endless received fuel (suc i) never_deleted never_cancelled in
    elim (received_cases (received i)) [
      | inl h ↦ ground (arith, h, rest)
      | inr (inl h) ↦ absurd (never_deleted i h)
      | inr (inr (inl h)) ↦ absurd (never_cancelled i h)
      | inr (inr (inr (kind, h))) ↦ ground (arith, h, rest)
    ]

-- DeletePod of a pod that is found, where no call fails: once the watch reports the deletion, as its
-- k-th event or before, and the context has not ended by then, it returns nil and the instance is no longer
-- installed and has no host, addresses or engine state.
pub delete_ins_pod-deleted :
    (fuel : ℕ) (api : PodApi) (ins : InsPod) (k : ℕ)
    → api.client_error ≡ none
    → api.delete_error ≡ none
    → api.found ≡ none
    → api.watch_client_error ≡ none
    → api.watch_error ≡ none
    → api.received k ≡ deleted
    → ((j : ℕ) → j < k → api.received j ≢ cancelled)
    → k < fuel
    → delete_ins_pod fuel true api ins ≡ some (cleared ins, none)
unfolding delete_ins_pod k8s_delete_pod wait_for_pod_deleted
delete_ins_pod-deleted fuel api ins k c d f wc w now goes_on enough =
    let loop = watch_loop-deleted api.received 0 k k fuel (omega arith) now goes_on enough in
    ground (arith, c, d, f, wc, w, loop)

-- Where the watch never reports the deletion, for example since its channel is closed and delivers
-- unexpected events, and the context does not end, DeletePod does not return: no number of events is
-- enough.
pub delete_ins_pod-endless :
    (fuel : ℕ) (api : PodApi) (ins : InsPod)
    → api.client_error ≡ none
    → api.delete_error ≡ none
    → api.found ≡ none
    → api.watch_client_error ≡ none
    → api.watch_error ≡ none
    → ((j : ℕ) → api.received j ≢ deleted)
    → ((j : ℕ) → api.received j ≢ cancelled)
    → delete_ins_pod fuel true api ins ≡ none
unfolding delete_ins_pod k8s_delete_pod wait_for_pod_deleted
delete_ins_pod-endless fuel api ins c d f wc w never_deleted never_cancelled =
    let loop = watch_loop-endless api.received fuel 0 never_deleted never_cancelled in
    ground (arith, c, d, f, wc, w, loop)
