-- ===== src/Remote/Tests.antt =====
-- Runs of the clients in business/adapter: a storage service and a cluster manager that answer.
mod Storage
mod Manager
