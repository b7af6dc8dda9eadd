-- ===== src/Finance.antt =====
-- The finance module, backend/internal/modules/finance.
pub mod Store
pub mod Env
pub mod Transfers
pub mod Escrows
pub mod Reads
pub mod Service
pub mod Money
pub mod OnOk
pub mod Bodies
pub mod Calls
pub mod Conservation
pub mod Effects
pub mod Settled
pub mod Settlement
pub mod Once
pub mod Atomicity
pub mod Authorization
pub mod History
mod Tests
