-- ===== src/Websocket.antt =====
-- websocket/: the frames of messages and the list of clients.
pub mod Frame
pub mod Clients
mod Tests
