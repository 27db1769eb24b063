-- ===== src/Presentation.antt =====
-- What the backend pushes to its viewers: websocket events and WebRTC frames.
pub mod WebSocket
pub mod WebRtc
