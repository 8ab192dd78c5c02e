-- ===== src/Params.antt =====
-- The engine parameters of business/domain and business/adapter: the template, the effective values,
-- and what is written back.
pub mod Slice
pub mod Template
pub mod Item
pub mod Quote
pub mod Effective
pub mod UserParams
pub mod Repository
mod Tests
