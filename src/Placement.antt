-- ===== src/Placement.antt =====
-- Where an instance's pod may run: the node checks and the node affinity of
-- business/adapter/pod_manager_base.go.
pub mod Nodes
pub mod Affinity
pub mod Selected
pub mod Deleting
pub mod Waiting
mod Tests
