-- ===== src/Reload.antt =====
-- Hot reload of the routing service: routing-service/internal/config and
-- routing-service/internal/reload.
pub mod Config
pub mod Watcher
mod Examples
