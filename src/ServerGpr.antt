-- ===== src/ServerGpr.antt =====
-- src/serverget.cpp: the server's end of a GET, a PUT or an RPC.
pub mod State
pub mod Session
mod Replies
mod Answer
mod Types
mod Tests
