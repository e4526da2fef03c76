-- ===== src/ClientGpr.antt =====
-- src/clientget.cpp: the client's end of a GET, a PUT or an RPC.
pub mod State
pub mod Receive
pub mod Session
mod Owed
mod Once
mod Stop
mod Update
mod Tests
