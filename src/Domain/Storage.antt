-- ===== src/Domain/Storage.antt =====
-- business/domain/db_cluster_shared_storage_base.go: the storage of a cluster. What the storage
-- manager answers is an argument.
use polar_db_stack_common.Common.{Bool, Option, none, some, if◌then◌else◌}
use polar_db_stack_common.Common.Text.{Text, codes, has_substring}
use polar_db_stack_common.Common.Outcome.{Outcome, ok, err}

pub data StorageError : Type 0 where
  cluster_not_init : StorageError
  storage_failed : Text → StorageError
  -- the error of the write lock with the topology that came with it
  lock_failed : Text → Text → StorageError

abbrev of_storage : Option Text → Outcome StorageError (Unit {0})
of_storage none = ok tt
of_storage (some e) = err (storage_failed e)

unfoldable pub use_storage : Bool → Option Text → Outcome StorageError (Unit {0})
use_storage inited answer = if inited then of_storage answer else err cluster_not_init

abbrev lock_error : Option Text → Option Text → Outcome StorageError (Unit {0})
lock_error topo none = ok tt
lock_error none (some e) = err (storage_failed e)
lock_error (some topo) (some e) = err (lock_failed topo e)

-- The topology as JSON, where the manager gives one, and its error.
unfoldable pub set_storage_write_lock :
    Bool → Option Text → Option Text → Outcome StorageError (Unit {0})
set_storage_write_lock inited topo error =
    if inited then lock_error topo error else err cluster_not_init

abbrev release_error : Option Text → Outcome StorageError (Unit {0})
release_error none = ok tt
release_error (some e) =
    if has_substring (codes "used by other cluster") e then ok tt else err (storage_failed e)

-- A storage that another cluster uses counts as released.
unfoldable pub release_storage : Bool → Option Text → Outcome StorageError (Unit {0})
release_storage inited answer = if inited then release_error answer else err cluster_not_init
