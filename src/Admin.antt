-- ===== src/Admin.antt =====
-- The admin API: internal/admin.
pub mod Wire
pub mod Backends
pub mod Queries
pub mod Webapp
pub mod Session
pub mod Routes
pub mod Serve
mod Examples
