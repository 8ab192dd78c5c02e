-- ===== src/Remote/ClusterManager/Pods.antt =====
-- The part of business/adapter/cluster_manager_client.go that works on the manager's pods and deployment:
-- its address, its affinity, its image, and the waits for its pods.
pub mod Objects
pub mod Running
pub mod Upgrade
use polar_db_stack_common.Common.{
  ℕ, ◌≡◌, Bool, true, false, not, ◌&&◌, ◌||◌, List, [], ◌∷◌, ◌++◌, map, Option, none, some,
  if◌then◌else◌, any, length,
}
use polar_db_stack_common.Common.Int.{pos}
use polar_db_stack_common.Common.Text.{Text, codes, text_eq}
use polar_db_stack_common.Common.Decimal.{itoa}
use polar_db_stack_common.Common.Dict.{Dict, lookup}
use polar_db_stack_common.Common.Outcome.{Outcome, ok, err}
use polar_db_stack_common.Common.Trace.{Trace, ◌>>=◌, done, stop, record_entry, outcome_of}
use polar_db_stack_common.Engine.Wait.{Signal, WaitResult}
use polar_db_stack_common.Remote.ClientIp.{internal_ip}
use polar_db_stack_common.Remote.Polling.{RemoteError, error, panicked, poll, poll_error}
use polar_db_stack_common.Remote.ClusterManager.Pods.Objects.{
  PodPhase, pod_running, pod_pending, other_phase, CmPod, Container, Deployment, PodCall, list_pods,
  get_deployment, wait_signal, delete_pod, get_node, update_deployment, KubeError, not_found,
  other_error, Kube, message, of_kube, PodStep,
}
use polar_db_stack_common.Remote.ClusterManager.{CmClient}

abbrev is_active : PodPhase → Bool
is_active pod_running = true
is_active pod_pending = true
is_active other_phase = false

-- The pods that the loop of getRunningCmPod collects.
abbrev pub candidates : List CmPod → List CmPod
candidates [] = []
candidates (pod ∷ pods) =
    if is_active pod.phase && not pod.deleting then pod ∷ candidates pods else candidates pods

-- `strings.Join(names, ",")`
abbrev join_names : List CmPod → Text
join_names [] = []
join_names (pod ∷ []) = pod.name
join_names (pod ∷ next ∷ pods) = pod.name ++ (codes "," ++ join_names (next ∷ pods))

abbrev pub count_text : List CmPod → Text
count_text pods =
    codes "cm running pod count: "
    ++ (itoa (pos (length pods)) ++ (codes ", [" ++ (join_names pods ++ codes "]")))

abbrev pub if_running : CmPod → PodPhase → Text → Outcome RemoteError CmPod
if_running pod pod_running text = ok pod
if_running pod pod_pending text = err (error text)
if_running pod other_phase text = err (error text)

abbrev pub only_running : List CmPod → Outcome RemoteError CmPod
only_running [] = err (error (count_text []))
only_running (pod ∷ []) = if_running pod pod.phase (count_text (pod ∷ []))
only_running (pod ∷ next ∷ pods) = err (error (count_text (pod ∷ next ∷ pods)))

abbrev pub running_of : Outcome KubeError (List CmPod) → Outcome RemoteError CmPod
running_of (err e) = err (message e)
running_of (ok pods) = only_running (candidates pods)

abbrev pub is_manager : Container → Bool
is_manager c = text_eq c.container_name (codes "manager")

-- The loop of upgradeCmDeploy over the containers; `none` is its return from the function.
unfoldable pub upgrade_containers : Text → List Container → Option (List Container)
upgrade_containers cm_image [] = some []
upgrade_containers cm_image (c ∷ cs) =
    let rest : Option (List Container) = upgrade_containers cm_image cs in
    if is_manager c
    then (if text_eq c.image cm_image then none else elim rest [
      | none ↦ none
      | some upgraded ↦ some (record c { image = cm_image } ∷ upgraded)
    ])
    else elim rest [ none ↦ none | some upgraded ↦ some (c ∷ upgraded) ]

-- A manager's container in the loop also sets the strategy.
abbrev pub with_containers : Deployment → Option (List Container) → Option Deployment
with_containers d none = none
with_containers d (some containers) =
    if any is_manager d.containers
    then some
        (record { containers = containers; strategy = codes "Recreate"; rolling_update = none })
    else some (record d { containers = containers })

abbrev is_found : Outcome RemoteError CmPod → Bool
is_found (ok pod) = true
is_found (err e) = false

abbrev last_found : Option (Outcome RemoteError CmPod) → PodStep CmPod
last_found none seen = some (err panicked, seen)
last_found (some r) seen = some (r, seen)

abbrev port_of : Option Text → Text
port_of none = []
port_of (some port) = port

abbrev address_of : Text → Text → Text → Outcome RemoteError (Text × Text)
address_of node_name [] port = err (error (node_name ++ codes " can't find the node ip"))
address_of node_name (c ∷ ip) port = ok (c ∷ ip, port)

-- Without a pod the condition reads the name of the nil pod.
abbrev pub new_pod_answer : Outcome RemoteError CmPod → Outcome RemoteError Bool
new_pod_answer (ok pod) = ok true
new_pod_answer (err e) = err panicked

abbrev pub deleted_answer : Outcome KubeError (List CmPod) → Outcome RemoteError Bool
deleted_answer (err (not_found e)) = ok true
deleted_answer (err (other_error e)) = ok false
deleted_answer (ok []) = ok true
deleted_answer (ok (pod ∷ pods)) = ok false

abbrev pub update_result : Option KubeError → Outcome RemoteError (Unit {0})
update_result none = ok tt
update_result (some e) = err (message e)

module _ (k : Kube) where
  unfoldable pub get_running_cm_pod : List PodCall → Outcome RemoteError CmPod × List PodCall
  get_running_cm_pod seen = (running_of (k.pods seen), list_pods ∷ seen)

  -- The condition of getCmRunningPod keeps the pod or the error that was met last.
  abbrev pub running_round :
      Option (Outcome RemoteError CmPod)
      → List PodCall
      → Outcome RemoteError Bool × Option (Outcome RemoteError CmPod) × List PodCall
  running_round last seen = let r = get_running_cm_pod seen in (ok (is_found r.0), some r.0, r.1)

  -- The result of the wait is not looked at.
  unfoldable pub get_cm_running_pod : ℕ → Bool → PodStep CmPod
  get_cm_running_pod fuel wait_cm_ready =
      if wait_cm_ready
      then (do r ← poll k.received wait_signal running_round fuel none; last_found r.0)
      else (λ seen. some (get_running_cm_pod seen))

  -- The node's last internal address, and the pod's label `port`.
  unfoldable pub get_local_cm_ip_port : ℕ → Bool → PodStep (Text × Text)
  get_local_cm_ip_port fuel wait_cm_ready = do
    pod ← get_cm_running_pod fuel wait_cm_ready
    node ← record_entry (get_node pod.node_name) (λ seen. of_kube (k.node seen))
    λ seen. some (
      address_of node.0 (internal_ip [] node.1) (port_of (lookup (codes "port") pod.labels)),
      seen,
    )

  unfoldable pub init_with_local_db_cluster : ℕ → Bool → PodStep CmClient
  init_with_local_db_cluster fuel wait_cm_ready = do
    d ← record_entry get_deployment (λ seen. of_kube (k.deployment seen))
    address ← get_local_cm_ip_port fuel wait_cm_ready
    done (record { ip = address.0; port = address.1; inited = true })

  unfoldable pub wait_for_new_cm_pod_ready : ℕ → PodStep (Unit {0})
  wait_for_new_cm_pod_ready fuel = do
    r ←
        poll k.received wait_signal
          (λ u seen. (new_pod_answer (get_running_cm_pod seen).0, u, (get_running_cm_pod seen).1))
          fuel tt
    λ seen. some (poll_error r.1 r.0, seen)

  -- `if !apierrors.IsNotFound(err) { return err }`, where err may be nil.
  abbrev pub after_delete : ℕ → Option KubeError → PodStep (Unit {0})
  after_delete fuel none = done tt
  after_delete fuel (some (not_found e)) = wait_for_new_cm_pod_ready fuel
  after_delete fuel (some (other_error e)) = stop (error e)

  abbrev pub move_first : ℕ → Text → List CmPod → PodStep (Unit {0})
  move_first fuel rw_host_name [] = done tt
  move_first fuel rw_host_name (pod ∷ pods) =
      if text_eq rw_host_name pod.node_name
      then (do
        r ← record_entry (delete_pod pod.name) (λ seen. ok (k.deleted seen))
        after_delete fuel r)
      else done tt

  unfoldable pub ensure_affinity : ℕ → Text → PodStep (Unit {0})
  ensure_affinity fuel rw_host_name = do
    pods ← record_entry list_pods (λ seen. of_kube (k.pods seen))
    move_first fuel rw_host_name pods

  unfoldable pub wait_for_cm_deleted : ℕ → PodStep (Unit {0})
  wait_for_cm_deleted fuel = do
    r ←
        poll k.received wait_signal (λ u seen. (deleted_answer (k.pods seen), u, list_pods ∷ seen))
          fuel tt
    λ seen. some (poll_error r.1 r.0, seen)

  abbrev pub update_with : Option Deployment → PodStep (Unit {0})
  update_with none = done tt
  update_with (some d) = record_entry (update_deployment d) (λ seen. update_result (k.updated seen))

  unfoldable pub upgrade_cm_deploy : Text → PodStep (Unit {0})
  upgrade_cm_deploy cm_image = do
    d ← record_entry get_deployment (λ seen. of_kube (k.deployment seen))
    update_with (with_containers d (upgrade_containers cm_image d.containers))
