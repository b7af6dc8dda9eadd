-- ===== src/Breaker.antt =====
-- The two circuit breakers: backend/internal/core/worker/circuit_breaker.go in Breaker/Worker.antt and
-- backend/internal/platform/resilience/circuit_breaker.go in Breaker/Resilience.antt.
pub mod Worker
pub mod WorkerSteps
pub mod Resilience
pub mod Sequential
pub mod Failures
mod Tests
