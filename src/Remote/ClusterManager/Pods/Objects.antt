-- ===== src/Remote/ClusterManager/Pods/Objects.antt =====
-- What business/adapter/cluster_manager_client.go reads of the API server's objects, and its calls.
use polar_db_stack_common.Common.{ℕ, Bool, List, Option}
use polar_db_stack_common.Common.Text.{Text}
use polar_db_stack_common.Common.Dict.{Dict}
use polar_db_stack_common.Common.Outcome.{Outcome, ok, err}
use polar_db_stack_common.Common.Trace.{Trace}
use polar_db_stack_common.Engine.Wait.{Signal}
use polar_db_stack_common.Remote.Polling.{RemoteError, error}

pub data PodPhase : Type 0 where
  pod_running pod_pending other_phase : PodPhase

pub record CmPod : Type 0 where
  pub name : Text
  pub node_name : Text
  pub phase : PodPhase
  -- the deletion timestamp is set
  pub deleting : Bool
  pub labels : Dict Text

pub record Container : Type 0 where
  pub container_name : Text
  pub image : Text

pub record Deployment : Type 0 where
  pub containers : List Container
  pub strategy : Text
  pub rolling_update : Option Text

pub data PodCall : Type 0 where
  list_pods get_deployment wait_signal : PodCall
  delete_pod get_node : Text → PodCall
  update_deployment : Deployment → PodCall

-- An error of the API server: `IsNotFound`, or another one.
pub data KubeError : Type 0 where
  not_found : Text → KubeError
  other_error : Text → KubeError

-- What the API server answers at a point of the trace; a node has its name and its addresses by type.
pub record Kube : Type 0 where
  pub pods : List PodCall → Outcome KubeError (List CmPod)
  pub deleted : List PodCall → Option KubeError
  pub deployment : List PodCall → Outcome KubeError Deployment
  pub updated : List PodCall → Option KubeError
  pub node : List PodCall → Outcome KubeError (Text × List (Text × Text))
  pub received : List PodCall → ℕ → Signal

abbrev pub message : KubeError → RemoteError
message (not_found e) = error e
message (other_error e) = error e

abbrev pub of_kube {ℓ} : {A : Type ℓ} → Outcome KubeError A → Outcome RemoteError A
of_kube (ok a) = ok a
of_kube (err e) = err (message e)

abbrev pub PodStep : Type 0 → Type 0
PodStep A = Trace PodCall RemoteError A
