-- ===== src/SharedPv.antt =====
-- src/sharedpv.cpp: a PV that keeps a value and serves any number of clients, and a set of them.
pub mod State
pub mod Session
pub mod Source
mod Views
mod Feed
mod Presence
mod Names
mod Tests
