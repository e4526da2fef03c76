-- ===== src/MonitorLink.antt =====
-- src/servermon.cpp and src/clientmon.cpp: a subscription with both its sides.
pub mod State
mod Server
mod Client
mod Steady
mod Window
mod Arrival
mod Tests
