-- ===== src/Domain.antt =====
-- The database cluster of business/domain: its classes, its kernel versions, its parameters and its
-- storage.
pub mod Classes
pub mod Versions
pub mod Base
pub mod Storage
mod Tests
