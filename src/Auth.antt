-- ===== src/Auth.antt =====
-- Authentication and authorization of the admin API: internal/auth.
pub mod Roles
pub mod Gate
pub mod Keys
pub mod Login
mod Examples
