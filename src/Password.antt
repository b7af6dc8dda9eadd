-- ===== src/Password.antt =====
-- backend/internal/core/security/password.go: passwords as encoded Argon2 hashes. Texts are lists of
-- bytes. Argon2 (`argon2.IDKey` and `argon2.Version`) and the random salt are parameters.
pub mod Base64
pub mod Scan
pub mod Encoding
pub mod RoundTrip
mod Tests
