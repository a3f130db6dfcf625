-- ===== src/RateLimit.antt =====
-- The rate limiter of the API gateway, apps/api-gateway/internal/handler/ratelimit.go.
pub mod Rules
pub mod Limiter
pub mod Window
pub mod Retry
