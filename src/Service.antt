-- ===== src/Service.antt =====
-- The gRPC server of the routing service: routing-service/internal/server/server.go and admin.go.
pub mod Route
pub mod Switch
mod Examples
