-- ===== src/TypeDesc.antt =====
-- src/type.cpp, src/dataimpl.h and the head of src/dataencode.cpp: the descriptions of types.
pub mod Code
pub mod Tree
pub mod Decode
pub mod Encode
pub mod Copy
mod Layout
mod Writing
mod Compound
mod Nodes
mod Exchange
mod Copying
mod Limit
mod Bytes
mod Codes
mod Children
mod RoundTrip
mod Tests
