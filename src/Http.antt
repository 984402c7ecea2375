-- ===== src/Http.antt =====
-- The web server that takes a client up to its web socket: its reader of lines, its headers and the
-- handshake (backend/networking/buffered-reader.c, header-list.c, web-server.c, web-socket.c).
pub mod Reader
pub mod Lines
pub mod Buffers
pub mod Bounds
pub mod Headers
pub mod Adding
pub mod Handshake
pub mod Server
pub mod Parsing
pub mod Upgrade
