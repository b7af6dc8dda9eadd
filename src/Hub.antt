-- ===== src/Hub.antt =====
-- backend/internal/core/realtime/websocket.go: the hub of WebSocket clients.
pub mod Shards
pub mod Spec
pub mod Delivery
pub mod Queue
mod Tests
