-- ===== src/Ws.antt =====
-- internal/adapter/inbound/ws: the WebSocket hub.
pub mod Protocol
pub mod State
pub mod Rooms
pub mod Voice
pub mod Hub
