-- ===== src/Remote/Tests/Manager.antt =====
-- Runs of business/adapter/cluster_manager_client.go: a manager whose instances run, and one that refuses.
use polar_db_stack_common.Common.{
  ◌≡◌, ◌≢◌, ◌↔◌, ◌⊎◌, refl, true, false, List, [], ◌∷◌, none, some, if◌then◌else◌, any,
}
use polar_db_stack_common.Common.Int.{pos}
use polar_db_stack_common.Common.Text.{Text, codes, has_substring}
use polar_db_stack_common.Common.Outcome.{Outcome, ok}
use polar_db_stack_common.Engine.Wait.{tick, wait_for}
use polar_db_stack_common.Engine.Retry.{retry_func, retry_loop, verdict, last_round, error_text}
use polar_db_stack_common.Remote.Http.{Reply, response, do_action_common}
use polar_db_stack_common.Remote.Polling.{RemoteError, poll_forever}
use polar_db_stack_common.Remote.ClusterManager.Requests.{
  client_ip_of, CmCall, request, get_status, read_clock, wait_signal, global_remove_cluster,
  global_remove_datamax, global_remove_topology_edge, switchover, InsStatus, ClusterStatus,
  CmService, is_not_exist_error, request_cm, parse_cm_response, cm_condition, do_action, http_error,
}
use polar_db_stack_common.Remote.ClusterManager.{
  CmClient, add_cluster, delete_cluster, delete_data_max, delete_topology_edge,
}
use polar_db_stack_common.Remote.ClusterManager.Adding.{AddedOrKept, add_cluster_iff}
use polar_db_stack_common.Remote.ClusterManager.Known.{deletes_of_missing}
use polar_db_stack_common.Remote.ClusterManager.Switchover.{
  ro_loop, select_ins, running, endpoint_of, get_cluster_status, starting_round,
  wait_for_starting_completed, switch_over,
}
use polar_db_stack_common.Remote.ClusterManager.Promotion.{
  StandsIn, switch_over_after_running, last_ro_judged,
}
use polar_db_stack_common.Remote.ClusterManager.Pods.Objects.{
  pod_running, CmPod, Deployment, PodCall, list_pods, get_deployment, delete_pod, update_deployment,
  not_found, Kube,
}
use polar_db_stack_common.Remote.ClusterManager.Pods.{
  update_result, upgrade_cm_deploy, wait_for_new_cm_pod_ready, ensure_affinity,
}
use polar_db_stack_common.Remote.ClusterManager.Pods.Running.{ensure_affinity_iff}
use polar_db_stack_common.Remote.ClusterManager.Pods.Upgrade.{
  has_image, upgraded, upgrade_cm_deploy-upgraded,
}

abbrev ins : Text → Text → InsStatus
ins endpoint phase = record { endpoint = endpoint; pod_name = codes "p"; phase = phase }

abbrev cluster_status : ClusterStatus
cluster_status = record { rw = ins (codes "a:1") running; ro = ins (codes "b:1") running ∷ [] }

-- Its replies are all the same.
abbrev manager_with : Reply → CmService
manager_with reply = record {
  attempts = λ seen. record { reply = λ i. reply; context_done = λ i. false };
  code = λ body. ok (pos 200);
  addresses = λ seen. ok [];
  status_reply = λ seen. response 200 (codes "{}");
  cluster_status = λ body. ok cluster_status;
  now = λ seen. 0;
  received = λ seen n. tick;
}

abbrev client : CmClient
client = record { ip = codes "10.0.0.1"; port = codes "5000"; inited = true }

abbrev switched : List CmCall
switched =
    request (switchover (codes "a:1") (codes "b:1"))
    ∷ (get_status ∷ (read_clock ∷ (wait_signal ∷ (read_clock ∷ []))))

switch_over_runs :
    switch_over
      (manager_with (response 200 []))
      client
      3
      (codes "a")
      (codes "b")
      (codes "1")
      true
      []
    ≡ some (ok tt, switched)
unfolding switch_over wait_for_starting_completed poll_forever wait_for starting_round
    get_cluster_status request_cm select_ins do_action do_action_common retry_func retry_loop
    verdict last_round error_text cm_condition parse_cm_response ro_loop
switch_over_runs = refl

switch_over_after_running_example :
    (rw : Text) × (ro : Text) × (i : InsStatus) × (status : ClusterStatus) × (log₁ : List CmCall)
    × (log₂ : List CmCall) × (before : List CmCall) × (between : List CmCall) × (client_ip_of
          (manager_with (response 200 []))
          true
          (codes "a")
          []
        ≡ some (ok rw, log₁))
    × (client_ip_of (manager_with (response 200 [])) true (codes "b") log₁ ≡ some (ok ro, log₂))
    × (get_cluster_status (manager_with (response 200 [])) client before ≡ (ok status, between))
    × StandsIn (endpoint_of ro (codes "1")) status i
    × (i.phase ≡ running)
    × (switched
        ≡ request (switchover (endpoint_of rw (codes "1")) (endpoint_of ro (codes "1"))) ∷ between)
switch_over_after_running_example =
    switch_over_after_running (manager_with (response 200 [])) client 3 (codes "a") (codes "b")
      (codes "1") true [] switched switch_over_runs

abbrev two_ro : ClusterStatus
two_ro = record {
  rw = ins [] running;
  ro = ins (codes "b:1") (codes "FAILED") ∷ (ins (codes "c:1") running ∷ []);
}

last_ro_judged_example : select_ins (codes "b:1") none two_ro ≡ some (ins (codes "c:1") running)
last_ro_judged_example =
    last_ro_judged (codes "b:1") none two_ro (ins (codes "b:1") (codes "FAILED") ∷ [])
      (ins (codes "c:1") running) (λ e. cc) refl refl

abbrev in_edge : Reply
in_edge = response 500 (codes "still in edge")

abbrev removal : List CmCall
removal = request (global_remove_cluster (codes "c1")) ∷ []

abbrev nothing_done : Outcome RemoteError (Unit {0})
nothing_done = ok tt

add_cluster_iff_example :
    (add_cluster (manager_with in_edge) client (codes "c1") (codes "a") (pos 1) true []
      ≡ some (nothing_done, removal))
    ↔ AddedOrKept
        (manager_with in_edge)
        (codes "c1")
        (codes "a")
        (codes "a")
        (pos 1)
        true
        []
        nothing_done
        removal
add_cluster_iff_example =
    add_cluster_iff (manager_with in_edge) client (codes "c1") (codes "a") (codes "a") (pos 1) true
      [] [] removal nothing_done refl refl

abbrev missing : Reply
missing = response 500 (codes "x not exist")

says_missing : is_not_exist_error (codes "x not exist") ≡ true
unfolding is_not_exist_error has_substring
says_missing = refl

fails_missing :
    (request_cm (parse_cm_response (manager_with missing).code) missing).1
    ≡ some (http_error 500 (codes "x not exist"))
unfolding request_cm
fails_missing = refl

deletes_of_missing_example :
    (delete_cluster (manager_with missing) client (codes "i") []
      ≡ some (ok tt, request (global_remove_cluster (codes "i")) ∷ []))
    × (delete_data_max (manager_with missing) client (codes "i") []
        ≡ some (ok tt, request (global_remove_datamax (codes "i")) ∷ []))
    × (delete_topology_edge (manager_with missing) client (codes "u") (codes "d") []
        ≡ some (ok tt, request (global_remove_topology_edge (codes "u") (codes "d")) ∷ []))
deletes_of_missing_example =
    deletes_of_missing (manager_with missing) client (codes "i") (codes "u") (codes "d") [] 500
      (codes "x not exist") (http_error 500 (codes "x not exist")) refl refl refl fails_missing
      says_missing

abbrev pod : CmPod
pod = record {
  name = codes "cm-1";
  node_name = codes "h1";
  phase = pod_running;
  deleting = false;
  labels = [];
}

abbrev old_deployment : Deployment
old_deployment = record {
  containers =
      record { container_name = codes "manager"; image = codes "old" }
      ∷ (record { container_name = codes "probe"; image = codes "p" } ∷ []);
  strategy = codes "RollingUpdate";
  rolling_update = some (codes "1");
}

-- The deletion of a pod succeeds, and the pod is there all the time.
abbrev kube : Kube
kube = record {
  pods = λ seen. ok (pod ∷ []);
  deleted = λ seen. none;
  deployment = λ seen. ok old_deployment;
  updated = λ seen. none;
  node = λ seen. ok (codes "h1", []);
  received = λ seen n. tick;
}

abbrev moved : List PodCall
moved = delete_pod (codes "cm-1") ∷ (list_pods ∷ [])

ensure_affinity_iff_example : (ensure_affinity kube 0 (codes "h1") [] ≡ some (ok tt, moved)) ↔ (
    ((codes "h1" ≢ codes "h1") × (moved ≡ list_pods ∷ []))
    ⊎ ((codes "h1" ≡ codes "h1") × (kube.deleted (list_pods ∷ []) ≡ none) × (moved ≡ moved))
    ⊎ ((e : Text) × (codes "h1" ≡ codes "h1")
        × (kube.deleted (list_pods ∷ []) ≡ some (not_found e))
        × (wait_for_new_cm_pod_ready kube 0 moved ≡ some (ok tt, moved))))
ensure_affinity_iff_example = ensure_affinity_iff kube 0 (codes "h1") pod [] [] moved refl

upgrade_cm_deploy-upgraded_example : upgrade_cm_deploy kube (codes "new") [] ≡ (
    if any (has_image (codes "new")) old_deployment.containers
    then some (ok tt, get_deployment ∷ [])
    else some (
      update_result (kube.updated (get_deployment ∷ [])),
      update_deployment (upgraded (codes "new") old_deployment) ∷ (get_deployment ∷ []),
    ))
upgrade_cm_deploy-upgraded_example =
    upgrade_cm_deploy-upgraded kube (codes "new") old_deployment [] refl
