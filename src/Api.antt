-- ===== src/Api.antt =====
-- internal/api: what stands in front of the REST handlers.
pub mod RateLimit
pub mod Middleware
pub mod Tests
