-- ===== src/Window.antt =====
-- Sliding windows: the admission rule that the Redis rate limiter of
-- backend/internal/core/middleware/rate_limit_redis.go and the flood check of
-- backend/internal/core/security/anomaly_detector.go have in common, and what it bounds.
pub mod Admission
pub mod Limiter
pub mod Limited
pub mod Bound
pub mod Anomaly
pub mod Flood
mod Tests
