-- ===== src/Remote.antt =====
-- The services that business/adapter calls over HTTP: the storage service, through storage_manager.go,
-- and a cluster's manager, through cluster_manager_client.go.
pub mod Http
pub mod Polling
pub mod Storage
pub mod ClientIp
pub mod ClusterManager
mod Tests
