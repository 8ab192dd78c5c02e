-- ===== src/Manager.antt =====
-- business/adapter/manager_client.go: the client that runs commands in the manager's container of an
-- instance's pod.
pub mod Exec
pub mod Client
pub mod Progress
pub mod Results
pub mod Ran
mod Tests
