-- ===== src/Store.antt =====
-- The tables of the gateway's database: internal/persistence.
pub mod Backends
pub mod History
pub mod Migrate
mod Examples
