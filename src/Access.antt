-- ===== src/Access.antt =====
-- Logging in with a second factor: backend/internal/modules/identity/transport/preauth_mfa_handler.go, and the
-- rate limit of backend/internal/core/security/auth.go.
pub mod Counters
pub mod Handler
pub mod Guesses
pub mod Calls
pub mod Limit
pub mod Spent
pub mod Entry
mod Tests
