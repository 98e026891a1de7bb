-- ===== src/WebSocket.antt =====
-- The WebSocket side of the relay (internal/relay/websocket.go).
pub mod Frame
pub mod Spec
pub mod Read
pub mod Write
pub mod Close
pub mod Events
