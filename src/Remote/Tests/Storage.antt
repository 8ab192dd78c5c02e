-- ===== src/Remote/Tests/Storage.antt =====
-- Runs of business/adapter/storage_manager.go on a storage that `mine` uses, and of the addresses of
-- utils/k8sutil/k8sutil.go.
use polar_db_stack_common.Common.{
  inl, ℕ, zero, suc, ◌≡◌, ◌≢◌, ◌<◌, ◌≤◌, refl, true, false, List, [], ◌∷◌, none, some,
  if◌then◌else◌, ltb, length, arith,
}
use polar_db_stack_common.Common.Text.{Text, codes, text_eq}
use polar_db_stack_common.Common.Outcome.{Outcome, ok, err}
use polar_db_stack_common.Engine.Wait.{tick, closed, poll_immediate}
use polar_db_stack_common.Engine.Retry.{retry_func, retry_loop, verdict, last_round, error_text}
use polar_db_stack_common.Domain.Storage
use polar_db_stack_common.Remote.Http.{response, do_action_common}
use polar_db_stack_common.Remote.Polling.{RemoteError, error, poll}
use polar_db_stack_common.Remote.ClientIp.{NodeClientIp, find_client_ip}
use polar_db_stack_common.Remote.Storage.Requests.{
  StorageCall, used_by, ready, topo, lock, StorageTopo, StorageTopoNode, StorageService, text, bool,
  handle_response, storage_condition, request_workflow, request_topo, request_pvc_used_by,
  request_check_ready,
}
use polar_db_stack_common.Remote.Storage.{
  StorageManager, other_cluster, initialize, set_write_lock, lock_round, use_with_volume,
  release_storage,
}
use polar_db_stack_common.Remote.Storage.Lock.{set_write_lock-locked}
use polar_db_stack_common.Remote.Storage.Owner.{foreign_storage_kept}
use polar_db_stack_common.Remote.Storage.Release.{release_storage-Returns}
use polar_db_stack_common.Remote.Storage.Workflow.{rounds_of_use, use_with_volume-ready}

-- A service that answers `no` before the fourth entry of the trace and `yes` from then on, and whose
-- waits give twelve ticks.
abbrev service : StorageService
service = record {
  attempts = λ seen. record {
    reply = λ i. response 200 (if ltb (length seen) 3 then codes "no" else codes "yes");
    context_done = λ i. false;
  };
  address = λ seen. ok (codes "10.0.0.1", codes "80");
  received = λ seen n. if ltb n 12 then tick else closed;
  string_map = λ body. ok ((codes "workflow_id", codes "w") ∷ []);
  value_map = λ body. ok (
      (codes "db_cluster_name", text (codes "mine"))
      ∷ ((codes "is_ready", bool (text_eq body (codes "yes"))) ∷ []));
  topology = λ body. (
    some (record {
      read_nodes = [];
      write_node = some (record { node_id = codes "n1"; node_ip = codes "10.0.0.7" });
    }),
    none,
  );
}

abbrev manager : StorageManager
manager = record { ip = codes "10.0.0.1"; port = codes "80"; inited = true }

used_by_mine : request_pvc_used_by service [] ≡ ok (codes "mine")
unfolding request_pvc_used_by do_action_common retry_func retry_loop verdict last_round error_text
    handle_response storage_condition
used_by_mine = refl

abbrev kept : List StorageCall
kept = used_by (codes "pv") (codes "ns") ∷ []

abbrev refused : Outcome RemoteError (Unit {0})
refused = err (other_cluster (codes "mine"))

foreign_storage_kept_example :
    (e : Text) × (release_storage service 20 manager (codes "pv") (codes "ns") (codes "yours") []
      ≡ some (err (error e), kept))
    × (polar_db_stack_common.Domain.Storage.release_storage true (some e) ≡ ok tt)
foreign_storage_kept_example =
    foreign_storage_kept service 20 manager (codes "pv") (codes "ns") (codes "yours") (codes "mine")
      [] (inl refl) (λ e. cc) used_by_mine (λ e. cc)

closes_after_twelve : (l : List StorageCall) (n : ℕ) → 12 ≤ n → service.received l n ≢ tick
closes_after_twelve l n late e = ground arith

release_storage-Returns_example :
    (y : Outcome RemoteError (Unit {0}) × List StorageCall) × (release_storage service 13 manager
        (codes "pv")
        (codes "ns")
        (codes "mine")
        []
      ≡ some y)
release_storage-Returns_example =
    release_storage-Returns service 12 13 manager (codes "pv") (codes "ns") (codes "mine")
      closes_after_twelve (omega arith) []

abbrev locked_topology : StorageTopo
locked_topology = record {
  read_nodes = [];
  write_node = some (record { node_id = codes "n1"; node_ip = codes "10.0.0.7" });
}

abbrev lock_log : List StorageCall
lock_log =
    topo (codes "pv") (codes "ns") (codes "w") ∷ (lock (codes "pv") (codes "ns") (codes "n1") ∷ [])

write_lock_runs :
    set_write_lock service 20 manager (codes "pv") (codes "ns") (codes "n1") []
    ≡ some (ok (some locked_topology, ok tt), lock_log)
unfolding set_write_lock initialize poll poll_immediate lock_round request_workflow request_topo
    do_action_common retry_func retry_loop verdict last_round error_text handle_response
    storage_condition
write_lock_runs = refl

set_write_lock-locked_example :
    (wf_id : Text) × (before : List StorageCall) × (topology : StorageTopo)
    × (node : StorageTopoNode) × (lock_log ≡ topo (codes "pv") (codes "ns") wf_id ∷ before)
    × (request_topo service before ≡ (some topology, ok tt))
    × (some locked_topology ≡ some topology)
    × (topology.write_node ≡ some node)
    × (node.node_id ≡ codes "n1")
set_write_lock-locked_example =
    set_write_lock-locked service 20 manager (codes "pv") (codes "ns") (codes "n1") [] lock_log
      (some locked_topology) write_lock_runs

abbrev use_rounds : ℕ → List StorageCall
use_rounds k =
    rounds_of_use (codes "pv") (codes "ns") (codes "v") (codes "r") (codes "lv") (codes "w") true k
      []

workflow_w : request_workflow service [] ≡ ok (codes "w")
unfolding request_workflow do_action_common retry_func retry_loop verdict last_round error_text
    handle_response storage_condition
workflow_w = refl

not_yet : (i : ℕ) → i < 1 → request_check_ready service (use_rounds i) ≡ ok false
unfolding request_check_ready do_action_common retry_func retry_loop verdict last_round error_text
    handle_response storage_condition
not_yet zero early = refl
not_yet (suc i) early = absurd (omega arith)

then_ready : request_check_ready service (use_rounds 1) ≡ ok true
unfolding request_check_ready do_action_common retry_func retry_loop verdict last_round error_text
    handle_response storage_condition
then_ready = refl

first_tick :
    (i : ℕ)
    → i < 1
    → service.received (ready (codes "pv") (codes "ns") (codes "w") ∷ use_rounds i) i ≡ tick
first_tick zero early = refl
first_tick (suc i) early = absurd (omega arith)

use_with_volume-ready_example :
    use_with_volume service 5 manager
      (codes "pv")
      (codes "ns")
      (codes "v")
      (codes "r")
      (codes "lv")
      true
      []
    ≡ some (ok tt, ready (codes "pv") (codes "ns") (codes "w") ∷ use_rounds 1)
use_with_volume-ready_example =
    use_with_volume-ready service 5 manager (codes "pv") (codes "ns") (codes "v") (codes "r")
      (codes "lv") (codes "w") true [] 1 (inl refl) workflow_w not_yet then_ready first_tick
      (omega arith)

abbrev nodes : List NodeClientIp
nodes =
    record { client_ip = []; host_ip = codes "10.0.0.1" }
    ∷ (record { client_ip = codes "11.1.1.2"; host_ip = codes "10.0.0.2" } ∷ [])

second_client : find_client_ip (codes "10.0.0.2") nodes ≡ ok (codes "11.1.1.2")
unfolding find_client_ip
second_client = refl
