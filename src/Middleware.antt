-- ===== src/Middleware.antt =====
-- backend/internal/middleware: the request guards of the API.
pub mod RateLimit
pub mod ClientIp
pub mod CircuitBreaker
pub mod Configurable
pub mod Rbac
pub mod AccessCheck
pub mod Auth
