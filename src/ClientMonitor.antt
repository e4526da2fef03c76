-- ===== src/ClientMonitor.antt =====
-- src/clientmon.cpp: the client side of a subscription.
pub mod State
pub mod Receive
pub mod Session
mod Notify
mod Wakeups
pub mod Credit
mod Tests
pub mod Squash
