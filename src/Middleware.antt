-- ===== src/Middleware.antt =====
-- internal/middleware: admission control (rate_limit.go, semaphore.go).
pub mod Semaphore
pub mod RateLimit
pub mod Access
pub mod Tenant
mod Tests
