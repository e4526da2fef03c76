-- ===== src/Framing.antt =====
-- src/conn.cpp and src/conn.h: a connection as a stream of messages.
pub mod Conn
pub mod Read
mod Chunks
mod Stream
pub mod Message
mod Frames
pub mod Deliver
pub mod Send
mod Tests
