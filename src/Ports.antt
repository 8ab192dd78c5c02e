-- ===== src/Ports.antt =====
-- The port allocation of business/adapter: port_range.go, go_set.go and port_generator.go.
pub mod PortRange
pub mod GoSet
pub mod Cluster
pub mod Usage
pub mod Generator
mod Tests
