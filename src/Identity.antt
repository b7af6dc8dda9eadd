-- ===== src/Identity.antt =====
-- backend/internal/modules/identity: accounts, logins and the second factor.
pub mod Accounts
pub mod Sentinel
pub mod Rows
pub mod Lockout
pub mod Fifth
pub mod Factor
pub mod Risk
pub mod Registered
mod Tests
pub mod Service
