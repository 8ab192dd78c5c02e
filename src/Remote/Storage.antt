-- ===== src/Remote/Storage.antt =====
-- business/adapter/storage_manager.go: the operations of the storage manager. An action on the service
-- is one entry of the trace; its HTTP rounds are what Remote/Http makes of the replies.
pub mod Requests
pub mod Start
pub mod Release
pub mod Lock
pub mod Owner
pub mod Workflow
use polar_db_stack_common.Common.{
  ℕ, ◌≡◌, Bool, true, false, List, [], ◌∷◌, ◌++◌, Option, none, some, if◌then◌else◌,
}
use polar_db_stack_common.Common.Int.{ℤ}
use polar_db_stack_common.Common.Text.{Text, codes, text_eq, has_substring}
use polar_db_stack_common.Common.Outcome.{Outcome, ok, err}
use polar_db_stack_common.Common.Trace.{
  Trace, ◌>>=◌, ◌>>◌, done, stop, record_entry, outcome_of, after_step, observed,
}
use polar_db_stack_common.Engine.Wait.{WaitResult}
use polar_db_stack_common.Remote.Polling.{RemoteError, error, panicked, poll, poll_error}
use polar_db_stack_common.Remote.Storage.Requests.{
  StorageCall, find_service, wait_signal, lock, topo, ready, expand_ready, release, used_by,
  use_volume, expand, StorageTopoNode, StorageTopo, StorageService, of_text, request_workflow,
  request_topo, request_pvc_used_by, request_check_ready, request_expand_ready,
}

pub record StorageManager : Type 0 where
  pub ip : Text
  pub port : Text
  pub inited : Bool

unfoldable pub init_with_address : Text → Text → StorageManager → StorageManager
init_with_address ip port s = record { ip = ip; port = port; inited = true }

-- The name of a step over the storage service.
abbrev pub Step : Type 0 → Type 0
Step A = Trace StorageCall RemoteError A

-- "used by other cluster %s"
abbrev pub other_cluster : Text → RemoteError
other_cluster used_by_cluster_name = error (codes "used by other cluster " ++ used_by_cluster_name)

-- An error with "can not find" in it, and no panic.
abbrev pub is_missing : RemoteError → Bool
is_missing (error e) = has_substring (codes "can not find") e
is_missing panicked = false

-- `topoResult != nil && topoResult.WriteNode != nil && topoResult.WriteNode.NodeId == nodeId`
abbrev pub holds_node : Text → Option StorageTopoNode → Bool
holds_node node_id none = false
holds_node node_id (some node) = text_eq node.node_id node_id

abbrev pub is_locked : Text → Option StorageTopo → Bool
is_locked node_id none = false
is_locked node_id (some topology) = holds_node node_id topology.write_node

abbrev pub lock_answer :
    Text → Option StorageTopo → Outcome RemoteError (Unit {0}) → Outcome RemoteError Bool
lock_answer node_id topology (err e) = err e
lock_answer node_id topology (ok u) = ok (is_locked node_id topology)

module _ (svc : StorageService) where
  -- `initialize`: the manager with the service's address, which is asked for once.
  unfoldable pub initialize : StorageManager → Step StorageManager
  initialize s = if s.inited then done s else (do
    address ← record_entry find_service (λ seen. of_text (svc.address seen))
    done (init_with_address address.0 address.1 s))

  abbrev pub request_write_lock : Text → Text → Text → Step Text
  request_write_lock name namespace node_id =
      record_entry (lock name namespace node_id) (request_workflow svc)

  abbrev pub request_use_storage : Text → Text → Text → Text → Text → Bool → Step Text
  request_use_storage name namespace volume_id resource_name volume_type format =
      record_entry (use_volume name namespace volume_id resource_name volume_type format)
        (request_workflow svc)

  abbrev pub request_release : Text → Text → Step Text
  request_release name namespace = record_entry (release name namespace) (request_workflow svc)

  abbrev pub request_expand : Text → Text → Text → Text → ℤ → ℤ → Step Text
  request_expand name namespace volume_id resource_name volume_type req_size =
      record_entry (expand name namespace volume_id resource_name volume_type req_size)
        (request_workflow svc)

  -- A poll whose condition is one request, repeated until it answers true.
  abbrev pub poll_request :
      ℕ → StorageCall → (List StorageCall → Outcome RemoteError Bool) → Step (Unit {0})
  poll_request fuel call answer = do
    r ← poll svc.received wait_signal (λ u seen. (answer seen, u, call ∷ seen)) fuel tt
    λ seen. some (poll_error r.1 r.0, seen)

  unfoldable pub use_with_volume :
      ℕ → StorageManager → Text → Text → Text → Text → Text → Bool → Step (Unit {0})
  use_with_volume fuel s name namespace volume_id resource_name volume_type format = do
    s' ← initialize s
    wf_id ← request_use_storage name namespace volume_id resource_name volume_type format
    poll_request fuel (ready name namespace wf_id) (request_check_ready svc)

  -- The condition of SetWriteLock keeps the topology that it has read.
  unfoldable pub lock_round :
      Text
      → Text
      → Text
      → Text
      → Option StorageTopo
      → List StorageCall
      → Outcome RemoteError Bool × Option StorageTopo × List StorageCall
  lock_round name namespace node_id wf_id topology seen =
      let r = request_topo svc seen in
      (lock_answer node_id r.0 r.1, r.0, topo name namespace wf_id ∷ seen)

  -- `SetWriteLock`: the topology that was read last stands beside the result of the wait.
  unfoldable pub set_write_lock :
      ℕ
      → StorageManager
      → Text
      → Text
      → Text
      → Step (Option StorageTopo × Outcome RemoteError (Unit {0}))
  set_write_lock fuel s name namespace node_id = do
    s' ← initialize s
    wf_id ← request_write_lock name namespace node_id
    r ← poll svc.received wait_signal (lock_round name namespace node_id wf_id) fuel none
    done (r.0, poll_error r.1 tt)

  unfoldable pub expand_storage :
      ℕ → StorageManager → Text → Text → Text → Text → ℤ → ℤ → Step (Unit {0})
  expand_storage fuel s name namespace volume_id resource_name volume_type req_size = do
    s' ← initialize s
    wf_id ← request_expand name namespace volume_id resource_name volume_type req_size
    poll_request fuel (expand_ready name namespace wf_id) (request_expand_ready svc)

  -- `define.StorageDummyWorkflowId` is an argument.
  unfoldable pub get_topo :
      StorageManager
      → Text
      → Text
      → Text
      → Step (Option StorageTopo × Outcome RemoteError (Unit {0}))
  get_topo s name namespace dummy_workflow_id = do
    s' ← initialize s
    record_entry (topo name namespace dummy_workflow_id) (λ seen. ok (request_topo svc seen))

  -- What follows the release request, by its result.
  abbrev pub after_release : ℕ → Text → Text → Outcome RemoteError Text → Step (Unit {0})
  after_release fuel name namespace (ok wf_id) =
      poll_request fuel (ready name namespace wf_id) (request_check_ready svc)
  after_release fuel name namespace (err e) = if is_missing e then done tt else stop e

  -- The second half of `Release`.
  unfoldable pub release_now : ℕ → Text → Text → Step (Unit {0})
  release_now fuel name namespace = do
    wf_id ← outcome_of (request_release name namespace)
    after_release fuel name namespace wf_id

  abbrev pub owned : ℕ → Text → Text → Text → Outcome RemoteError Text → Step (Unit {0})
  owned fuel name namespace cluster_name (ok owner) =
      if text_eq owner cluster_name
      then release_now fuel name namespace
      else stop (other_cluster owner)
  owned fuel name namespace cluster_name (err e) = if is_missing e then done tt else stop e

  -- Before it, the check of the cluster, unless no cluster is named.
  unfoldable pub check_owner : ℕ → Text → Text → Text → Step (Unit {0})
  check_owner fuel name namespace cluster_name = do
    owner ← outcome_of (record_entry (used_by name namespace) (request_pvc_used_by svc))
    owned fuel name namespace cluster_name owner

  unfoldable pub release_storage : ℕ → StorageManager → Text → Text → Text → Step (Unit {0})
  release_storage fuel s name namespace cluster_name = do
    s' ← initialize s
    elim (text_eq cluster_name []) [
      | true ↦ release_now fuel name namespace
      | false ↦ check_owner fuel name namespace cluster_name
    ]
