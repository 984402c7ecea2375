-- ===== src/WebSocket.antt =====
-- backend/networking/web-socket.c: the frames of the WebSocket protocol.
pub mod Frame
pub mod Sender
pub mod Echo
pub mod Receiver
pub mod Headers
pub mod Masking
pub mod Protocol
pub mod Sizes
pub mod Bodies
pub mod Reading
pub mod Writing
