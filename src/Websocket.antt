-- ===== src/Websocket.antt =====
-- internal/storage/websocket: the backend that streams a mission to the web server.
pub mod Connection
pub mod Backend
pub mod Sending
pub mod Reconnecting
pub mod Waiting
