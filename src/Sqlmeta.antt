-- ===== src/Sqlmeta.antt =====
-- SQL analysis of a request body: routing-service/internal/sqlmeta.
pub mod Lexer
pub mod Statement
pub mod Refs
pub mod Names
pub mod Analyze
mod Examples
