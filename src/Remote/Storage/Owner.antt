-- ===== src/Remote/Storage/Owner.antt =====
-- ReleaseStorage of business/domain/db_cluster_shared_storage_base.go on Release of
-- business/adapter/storage_manager.go.
use polar_db_stack_common.Common.{
  ℕ, ◌≡◌, ◌≢◌, inl, inr, refl, true, List, [], ◌∷◌, ◌++◌, some, arith,
}
use polar_db_stack_common.Common.Text.{Text, codes, has_substring}
use polar_db_stack_common.Common.Outcome.{ok, err}
use polar_db_stack_common.Domain.Storage
use polar_db_stack_common.Remote.Polling.{error}
use polar_db_stack_common.Remote.Storage.Requests.{
  StorageCall, used_by, StorageService, request_pvc_used_by,
}
use polar_db_stack_common.Remote.Storage.{StorageManager, other_cluster, release_storage}
use polar_db_stack_common.Remote.Storage.Start.{HasAddress, started}
use polar_db_stack_common.Remote.Storage.Release.{release_storage_iff}

other_cluster-substring :
    (owner : Text)
    → has_substring (codes "used by other cluster") (codes "used by other cluster " ++ owner) ≡ true
unfolding has_substring
other_cluster-substring owner = refl

-- A cluster with a name whose storage is used by another one, and a manager that has the service's
-- address or can look it up: the manager's Release does not ask the service to release it, and the
-- cluster's ReleaseStorage takes the manager's error for success.
pub foreign_storage_kept :
    (svc : StorageService) (fuel : ℕ) (s : StorageManager) (name namespace cluster owner : Text)
    (log : List StorageCall)
    → HasAddress svc s log
    → cluster ≢ []
    → request_pvc_used_by svc (started s log) ≡ ok owner
    → owner ≢ cluster
    → (e : Text) × (release_storage svc fuel s name namespace cluster log
        ≡ some (err (error e), used_by name namespace ∷ started s log))
      × (polar_db_stack_common.Domain.Storage.release_storage true (some e) ≡ ok tt)
unfolding polar_db_stack_common.Domain.Storage.release_storage
foreign_storage_kept svc fuel s name namespace cluster owner log has named asked other = (
  codes "used by other cluster " ++ owner,
  (release_storage_iff svc fuel s name namespace cluster log
        (used_by name namespace ∷ started s log) (err (other_cluster owner)) has named).1
      (inr (inl (owner, asked, other, refl, refl))),
  ground (arith, other_cluster-substring owner),
)
