-- ===== src/Social.antt =====
-- backend/internal/modules/social: the follow graph, its requests, and blocks.
pub mod Graph
pub mod Service
pub mod Blocks
pub mod Requests
pub mod Polite
pub mod Asked
mod Tests
