-- ===== src/Engine.antt =====
-- The engine instances of a database cluster: business/domain/db_ins.go with the polling of
-- utils/waitutil, the retries of utils/retryutil, the errors of define/interrupt_error.go and the
-- instance ids of business/adapter/id_generator.go.
pub mod Wait
pub mod Retry
pub mod Calls
pub mod Health
pub mod Ins
pub mod Interrupt
pub mod Ids
mod Tests
