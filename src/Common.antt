-- ===== src/Common.antt =====
-- common/: the helpers that the service and its WebSocket front end share.
pub mod Util
pub mod Socket
pub mod Format
mod Tests
