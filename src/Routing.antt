-- ===== src/Routing.antt =====
-- The gateway's routing decisions: internal/routing.
pub mod QueryId
pub mod External
pub mod Recovery
pub mod Singleflight
pub mod Router
mod Examples
