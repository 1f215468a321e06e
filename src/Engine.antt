-- ===== src/Engine.antt =====
-- The routing engine of the routing service: routing-service/internal/engine.
pub mod Method
pub mod Pipeline
pub mod Input
pub mod Adapter
pub mod Registry
mod Examples
