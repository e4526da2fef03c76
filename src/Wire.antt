-- ===== src/Wire.antt =====
-- src/pvaproto.h: the buffers and the codecs of the PV Access protocol.
pub mod Buffer
pub mod Scalar
pub mod Laws
pub mod ScalarLaws
pub mod Size
pub mod Text
pub mod Header
pub mod SizeLaws
pub mod TextLaws
pub mod HeaderLaws
pub mod RoundTrip
pub mod Safety
mod Tests
