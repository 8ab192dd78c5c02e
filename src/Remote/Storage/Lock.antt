-- ===== src/Remote/Storage/Lock.antt =====
-- SetWriteLock of business/adapter/storage_manager.go: which topology it ends on.
use polar_db_stack_common.Common.{ℕ, ◌≡◌, refl, true, List, ◌∷◌, Option, none, some, arith}
use polar_db_stack_common.Common.Text.{Text, text_eq_iff}
use polar_db_stack_common.Common.Outcome.{Outcome, ok, err}
use polar_db_stack_common.Common.Trace.{after_step, after_step-ok, record_entry, done}
use polar_db_stack_common.Engine.Wait.{WaitResult, waited, failed, wait_timeout, wait_cancelled}
use polar_db_stack_common.Remote.Polling.{RemoteError, poll_error, poll-waited}
use polar_db_stack_common.Remote.Storage.Requests.{
  StorageCall, wait_signal, lock, topo, StorageTopo, StorageTopoNode, StorageService,
  request_workflow, request_topo,
}
use polar_db_stack_common.Remote.Storage.{
  StorageManager, holds_node, is_locked, lock_answer, lock_round, initialize, set_write_lock,
}

-- The test of the condition, read back.
holds_node-node :
    (node_id : Text) (write_node : Option StorageTopoNode)
    → holds_node node_id write_node ≡ true
    → (node : StorageTopoNode) × (write_node ≡ some node) × (node.node_id ≡ node_id)
holds_node-node node_id none e = cc
holds_node-node node_id (some node) e = (node, refl, (text_eq_iff node.node_id node_id).0 e)

is_locked-node :
    (node_id : Text) (t : Option StorageTopo)
    → is_locked node_id t ≡ true
    → (topology : StorageTopo) × (node : StorageTopoNode) × (t ≡ some topology)
      × (topology.write_node ≡ some node)
      × (node.node_id ≡ node_id)
is_locked-node node_id none e = cc
is_locked-node node_id (some topology) e =
    let (node, w, i) = holds_node-node node_id topology.write_node e in (topology, node, refl, w, i)

after_poll :
    (r : Option
      (Outcome RemoteError (Option StorageTopo × WaitResult RemoteError) × List StorageCall))
    (t : Option StorageTopo) (log' : List StorageCall)
    → after_step {B = Option StorageTopo × Outcome RemoteError (Unit {0})} r
        (λ w. done (w.0, poll_error w.1 tt))
      ≡ some (ok (t, ok tt), log')
    → r ≡ some (ok (t, waited), log')
after_poll none t log' e = cc
after_poll (some (err x, l)) t log' e = cc
after_poll (some (ok (t', waited), l)) t log' e = ground arith
after_poll (some (ok (t', failed x), l)) t log' e = cc
after_poll (some (ok (t', wait_timeout), l)) t log' e = cc
after_poll (some (ok (t', wait_cancelled), l)) t log' e = cc

lock_answer-ok :
    (node_id : Text) (t : Option StorageTopo) (r : Outcome RemoteError (Unit {0}))
    → lock_answer node_id t r ≡ ok true
    → (r ≡ ok tt) × (is_locked node_id t ≡ true)
lock_answer-ok node_id t (ok u) e = ground arith
lock_answer-ok node_id t (err x) e = cc

-- SetWriteLock without an error ends on a request for the topology that the service answered without an
-- error; the topology of this answer is the one returned, it has a write node, and this node is the one
-- for which the lock was asked.
pub set_write_lock-locked :
    (svc : StorageService) (fuel : ℕ) (s : StorageManager) (name namespace node_id : Text)
    (log log' : List StorageCall) (t : Option StorageTopo)
    → set_write_lock svc fuel s name namespace node_id log ≡ some (ok (t, ok tt), log')
    → (wf_id : Text) × (before : List StorageCall) × (topology : StorageTopo)
      × (node : StorageTopoNode) × (log' ≡ topo name namespace wf_id ∷ before)
      × (request_topo svc before ≡ (some topology, ok tt))
      × (t ≡ some topology)
      × (topology.write_node ≡ some node)
      × (node.node_id ≡ node_id)
unfolding set_write_lock lock_round
set_write_lock-locked svc fuel s name namespace node_id log log' t e =
    let (s', log₁, e₁, e₂) = after_step-ok (initialize svc s log) _ e in
    let (wf_id, log₂, e₃, e₄) =
      after_step-ok (record_entry (lock name namespace node_id) (request_workflow svc) log₁) _ e₂ in
    let round = lock_round svc name namespace node_id wf_id in
    let (v, before, held) =
      poll-waited svc.received wait_signal round fuel none t log₂ log' (after_poll _ t log' e₄) in
    let (answered, locked) =
      lock_answer-ok node_id (request_topo svc before).0 (request_topo svc before).1
        (ground (arith, held)) in
    let (topology, node, is, writes, id) =
      is_locked-node node_id (request_topo svc before).0 locked in
    (
      wf_id,
      before,
      topology,
      node,
      ground (arith, held),
      ground arith,
      ground (arith, held),
      writes,
      id,
    )
