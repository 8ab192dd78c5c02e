-- ===== src/Remote/Storage/Start.antt =====
-- How an operation of business/adapter/storage_manager.go starts: with the address of the service, which
-- is asked for where the manager does not have it yet.
use polar_db_stack_common.Common.{
  ◌≡◌, ◌⊎◌, inl, inr, true, false, List, ◌∷◌, some, if◌then◌else◌, arith,
}
use polar_db_stack_common.Common.Text.{Text}
use polar_db_stack_common.Common.Outcome.{ok}
use polar_db_stack_common.Remote.Storage.Requests.{StorageCall, find_service, StorageService}
use polar_db_stack_common.Remote.Storage.{StorageManager, init_with_address, initialize}

-- The manager has the service's address, or the API server gives it.
abbrev pub HasAddress : StorageService → StorageManager → List StorageCall → Type 0
HasAddress svc s log =
    (s.inited ≡ true)
    ⊎ ((s.inited ≡ false) × (address : Text × Text) × (svc.address log ≡ ok address))

-- The calls after the start: a fresh manager looks up the service.
abbrev pub started : StorageManager → List StorageCall → List StorageCall
started s log = if s.inited then log else find_service ∷ log

pub initialize-started :
    (svc : StorageService) (s : StorageManager) (log : List StorageCall)
    → HasAddress svc s log
    → (s' : StorageManager) × (initialize svc s log ≡ some (ok s', started s log))
unfolding initialize
initialize-started svc s log (inl inited) = (s, ground (arith, inited))
initialize-started svc s log (inr (fresh, address, found)) =
    (init_with_address address.0 address.1 s, ground (arith, fresh, found))
