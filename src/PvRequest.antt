-- ===== src/PvRequest.antt =====
-- src/pvrequest.cpp: which fields of a structure a client asks for.
pub mod Mask
mod Bits
mod Select
mod Tests
