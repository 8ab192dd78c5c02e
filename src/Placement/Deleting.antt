-- ===== src/Placement/Deleting.antt =====
-- The deletion of an instance's pod: DeletePod and WaitForPodDeleted of utils/k8sutil/k8sutil.go, and
-- DeletePod, IsDeleted and EnsureInsTypeMeta of business/adapter/pod_manager_base.go.
use polar_db_stack_common.Common.{
  ℕ, zero, suc, Bool, true, false, [], ◌++◌, Option, none, some, if◌then◌else◌,
}
use polar_db_stack_common.Common.Text.{Text, codes}
use polar_db_stack_common.Common.Dict.{Dict}
use polar_db_stack_common.Common.Outcome.{Outcome, ok, err}
use polar_db_stack_common.Remote.ClusterManager.Pods.Objects.{KubeError, not_found, other_error}

-- What the select of WaitForPodDeleted receives: an event of the watch, or the context's end. A closed
-- channel delivers events whose type is empty.
pub data Received : Type 0 where
  modified deleted cancelled : Received
  unexpected : Text → Received

-- What the API server answers to the deletion, and then in the wait for it.
pub record PodApi : Type 0 where
  pub client_error : Option Text
  pub delete_error : Option KubeError
  pub found : Option KubeError
  pub watch_client_error : Option Text
  pub watch_error : Option Text
  pub received : ℕ → Received

-- The loop over the events from the i-th on: `some none` is its return of nil, and `none` a loop that has
-- not returned when the fuel is used up. The error of an unexpected event is assigned and not returned.
unfoldable pub watch_loop : ℕ → (ℕ → Received) → ℕ → Option (Option Text)
watch_loop zero received i = none
watch_loop (suc fuel) received i =
    let rest : Option (Option Text) = watch_loop fuel received (suc i) in
    elim (received i) [
      | modified ↦ rest
      | deleted ↦ some none
      | unexpected kind ↦ rest
      | cancelled ↦ some (some (codes "cancelled when wait for pod delete."))
    ]

abbrev pub watch_now : Option Text → Option Text → Option (Option Text) → Option (Option Text)
watch_now (some e) watch_error loop = some (some (codes "get core v1 client error: " ++ e))
watch_now none (some e) loop = some (some (codes "watch pod error: " ++ e))
watch_now none none loop = loop

abbrev pub after_get : Option KubeError → Option (Option Text) → Option (Option Text)
after_get none watch = watch
after_get (some (not_found e)) watch = some none
after_get (some (other_error e)) watch = some (some e)

unfoldable pub wait_for_pod_deleted : ℕ → PodApi → Option (Option Text)
wait_for_pod_deleted fuel api =
    after_get api.found
      (watch_now api.watch_client_error api.watch_error (watch_loop fuel api.received 0))

abbrev pub wait_error : Text → Option (Option Text) → Option (Option Text)
wait_error name none = none
wait_error name (some none) = some none
wait_error name (some (some e)) =
    some (some (codes "wait pod " ++ (name ++ (codes " deleted error: " ++ e))))

abbrev pub after_delete : Option KubeError → Option (Option Text) → Option (Option Text)
after_delete none wait = wait
after_delete (some (not_found e)) wait = wait
after_delete (some (other_error e)) wait = some (some e)

abbrev pub with_client : Option Text → Option (Option Text) → Option (Option Text)
with_client none delete = delete
with_client (some e) delete = some (some e)

-- `DeletePod` of k8sutil.go
unfoldable pub k8s_delete_pod : ℕ → PodApi → Text → Option (Option Text)
k8s_delete_pod fuel api name =
    with_client api.client_error
      (after_delete api.delete_error (wait_error name (wait_for_pod_deleted fuel api)))

-- What DeletePod resets of an instance.
pub record InsPod : Type 0 where
  pub resource_name : Text
  pub installed : Bool
  pub host : Text
  pub host_ip : Text
  pub client_ip : Text
  pub engine_state : Option Text

abbrev pub cleared : InsPod → InsPod
cleared ins = record {
  resource_name = ins.resource_name;
  installed = false;
  host = [];
  host_ip = [];
  client_ip = [];
  engine_state = none;
}

-- The instance after the deletion, and its error.
abbrev pub reset : InsPod → Option (Option Text) → Option (InsPod × Option Text)
reset ins none = none
reset ins (some none) = some (cleared ins, none)
reset ins (some (some e)) = some (ins, some e)

-- `PodManagerBase.DeletePod`
unfoldable pub delete_ins_pod : ℕ → Bool → PodApi → InsPod → Option (InsPod × Option Text)
delete_ins_pod fuel inited api ins =
    if inited
    then reset ins (k8s_delete_pod fuel api ins.resource_name)
    else some (ins, some (codes "pod manager not init."))

-- A pod's name, its deletion timestamp as it is printed, and its labels, which may be a nil map.
pub record PodMeta : Type 0 where
  pub name : Text
  pub deletion_timestamp : Option Text
  pub labels : Option (Dict Text)

abbrev deleted_by_error : Option KubeError → Outcome Text Bool
deleted_by_error none = ok false
deleted_by_error (some (not_found e)) = ok true
deleted_by_error (some (other_error e)) = err e

abbrev is_stamped : Option PodMeta → Bool
is_stamped none = false
is_stamped (some pod) = elim (pod.deletion_timestamp) [ none ↦ false | some stamp ↦ true ]

-- `IsDeleted` by the pod and the error that GetPod returns.
unfoldable pub is_deleted_pod : Option PodMeta → Option KubeError → Outcome Text Bool
is_deleted_pod pod error = if is_stamped pod then ok true else deleted_by_error error
