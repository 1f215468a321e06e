-- ===== src/Proxy.antt =====
-- The gateway's reverse proxy: internal/proxy.
pub mod Headers
pub mod Cookie
pub mod Forward
mod Examples
