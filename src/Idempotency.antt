-- ===== src/Idempotency.antt =====
-- backend/internal/core/middleware/idempotency.go: replay protection of requests, with its state in Redis.
pub mod Stages
pub mod Keys
pub mod Replay
pub mod Race
mod Tests
