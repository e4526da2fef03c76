-- ===== src/ServerMonitor.antt =====
-- src/servermon.cpp: the server side of a subscription.
pub mod State
pub mod Post
pub mod Reply
pub mod Command
pub mod Session
mod Wakeup
mod Liveness
pub mod Invariant
pub mod Lifetime
pub mod Flow
mod Delivery
pub mod Queue
mod Stop
mod Tests
