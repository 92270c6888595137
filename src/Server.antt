-- ===== src/Server.antt =====
-- internal/server: what stands before and beside the HTTP handlers.
pub mod RateLimit
pub mod Windows
pub mod Audit
pub mod Auditing
pub mod Guarding
pub mod Http
