-- ===== src/Market.antt =====
-- backend/internal/modules/marketplace: products, orders and wish lists.
pub mod Tables
pub mod Repository
pub mod Listings
pub mod Service
pub mod Charges
pub mod Billing
pub mod Stock
pub mod Calls
pub mod SoldOut
mod Tests
