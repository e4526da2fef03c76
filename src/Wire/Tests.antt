-- ===== src/Wire/Tests.antt =====
-- Runs of the codecs at inputs that the source's own tests use, and the theorems at such inputs.
use pvxs.Prelude.{ℕ, ◌≡◌, refl, true, false, xor, List, [], ◌∷◌, arith}
use pvxs.Wire.Buffer.{vector_out, fixed_in, fixed_out, put_bytes}
use pvxs.Wire.Scalar.{to_wire, from_wire, le_bytes, host_be}
use pvxs.Wire.Size.{size_max, to_wire_size, from_wire_size}
use pvxs.Wire.Text.{Status, status_ok, to_wire_str, from_wire_str, to_wire_status, from_wire_status}
use pvxs.Wire.Header.{Header, to_wire_header, from_wire_header}
use pvxs.Wire.Safety.{Bounded, writers-Bounded}
use pvxs.Wire.RoundTrip.{
  ReadsBack, from_wire-to_wire, from_wire_str-to_wire_str, from_wire_status-to_wire_status,
  from_wire_header-to_wire_header,
}

-- testxcode.cpp, testSerialize1: 0x01020304 in both orders.
u32_big : (to_wire false 4 (vector_out true) 0x0102_0304).written ≡ 1 ∷ 2 ∷ 3 ∷ 4 ∷ []
unfolding to_wire le_bytes put_bytes xor
u32_big = refl

size_long : (to_wire_size (vector_out false) 0x1234).written ≡ 254 ∷ 0x34 ∷ 0x12 ∷ 0 ∷ 0 ∷ []
unfolding to_wire_size to_wire le_bytes put_bytes host_be xor
size_long = refl

-- A size that has no room is cut after its first byte, and faults.
size_no_room : (to_wire_size (fixed_out false 2) 300).good ≡ false
unfolding to_wire_size to_wire le_bytes put_bytes host_be xor
size_no_room = refl

null_size : (from_wire_size true 0 (fixed_in true (255 ∷ []))).0 ≡ size_max
unfolding from_wire_size
null_size = refl

abbrev abc : List ℕ
abc = b'a' ∷ b'b' ∷ b'c' ∷ []

abbrev warning : Status
warning = record { code = 1; msg = abc; trace = [] }

abbrev search_header : Header
search_header = record { cmd = 3; flags = 0; version = 2; len = 0x1_0000 }

from_wire-to_wire_example :
    ReadsBack true (to_wire false 4 (vector_out true) 0xdead_beef) (from_wire true 4 0) 0xdead_beef
from_wire-to_wire_example = from_wire-to_wire false true true 4 0 0xdead_beef (omega arith)

from_wire_str-to_wire_str_example :
    ReadsBack true (to_wire_str (vector_out true) abc) (from_wire_str []) abc
from_wire_str-to_wire_str_example = from_wire_str-to_wire_str true [] abc (omega arith)

from_wire_status-to_wire_status_example :
    ReadsBack false (to_wire_status (vector_out false) warning) (from_wire_status status_ok) warning
from_wire_status-to_wire_status_example =
    from_wire_status-to_wire_status false status_ok warning (omega arith)

from_wire_header-to_wire_header_example :
    ReadsBack false
      (to_wire_header (vector_out true) search_header)
      (from_wire_header search_header)
      (record { cmd = 3; flags = 0x80; version = 2; len = 0x1_0000 })
from_wire_header-to_wire_header_example =
    from_wire_header-to_wire_header true false search_header search_header (omega arith)
      (omega arith)

writers-Bounded_example : Bounded (fixed_out true 3) (to_wire_str (fixed_out true 3) abc)
writers-Bounded_example = (writers-Bounded (fixed_out true 3)).3 abc
