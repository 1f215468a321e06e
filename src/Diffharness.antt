-- ===== src/Diffharness.antt =====
-- The comparison of the answers of two gateways: internal/diffharness.
pub mod Normalize
mod Examples
