-- ===== src/Messaging.antt =====
-- backend/internal/modules/messaging: rooms, messages, receipts, and the guard of encrypted messages.
pub mod Store
pub mod Rows
pub mod Repository
pub mod Marks
pub mod Guard
pub mod Service
pub mod Encryption
pub mod Sealed
pub mod Forwards
pub mod Ratchet
pub mod Calls
pub mod Marked
pub mod Receipts
pub mod Keeps
pub mod Members
mod Tests
