-- ===== src/Wire/HeaderLaws.antt =====
-- The message header, written and read back.
use Prim.Native.Nat.{bit_and, bit_or}
use pvxs.Prelude.{
  ℕ, ◌<◌, ◌^◌, ◌≡◌, refl, Bool, true, false, List, [], ◌∷◌, ◌++◌, arith, length-append,
}
use pvxs.Prelude.Bytes.{agree_below, agree_below→eq}
use pvxs.Wire.Buffer.{Out, fixed_in, in_skip, ensure, copy}
use pvxs.Wire.Laws.{
  Fits, Writes, copy-Writes, ensure-Ensured, Ensured-le, Writes-trans, Writes-Fits,
}
use pvxs.Wire.Scalar.{wire_bytes, host_be}
use pvxs.Wire.ScalarLaws.{to_wire-Writes, from_wire-wire_bytes, length-wire_bytes}
use pvxs.Wire.Header.{Header, has, header_flags, header_version, to_wire_header, from_wire_header}
use pvxs.Wire.Header.Flags

-- A sender leaves the byte order flag to the writer.
abbrev pub OrderFree : ℕ → Type 0
OrderFree flags = flags < 128

set_msb : (f : ℕ) → OrderFree f → bit_and (bit_or f 0x80) 0x80 ≡ 0x80
unfolding agree_below
set_msb = agree_below→eq _ _ 128 refl

no_msb : (f : ℕ) → OrderFree f → bit_and f 0x80 ≡ 0
unfolding agree_below
no_msb = agree_below→eq _ _ 128 refl

has-header_flags :
    (be : Bool) (flags : ℕ) → OrderFree flags → has (header_flags be flags) Flags.msb ≡ be
has-header_flags true f h = rw (set_msb f h)
has-header_flags false f h = rw (no_msb f h)

abbrev pub header_bytes : Bool → Header → List ℕ
header_bytes be h =
    (0xca ∷ header_version h.flags ∷ header_flags be h.flags ∷ h.cmd ∷ []) ++ wire_bytes be 4 h.len

pub to_wire_header-Writes :
    (b : Out) (h : Header)
    → b.good ≡ true
    → Fits b 8
    → Writes b (to_wire_header b h) (header_bytes b.be h)
unfolding to_wire_header
to_wire_header-Writes b h g f =
    let (enough, e) = ensure-Ensured b 8 g f in
    let c : Out = (ensure b 8).0 in
    let front : List ℕ = 0xca ∷ header_version h.flags ∷ header_flags b.be h.flags ∷ h.cmd ∷ [] in
    let first : Writes b (copy c front) front = copy-Writes front (Ensured-le 4 (omega arith) e) in
    rw enough (
      Writes-trans first (
        to_wire-Writes host_be 4 (copy c front) b.be h.len e.is_good e.same_order
          (Writes-Fits 4 first f)))

-- The reader takes the byte order from the flags, whatever order it expected.
pub from_wire_header-header_bytes :
    (be expected : Bool) (old h : Header) (rest : List ℕ)
    → OrderFree h.flags
    → h.len < 2 ^ 32
    → from_wire_header old (fixed_in expected (header_bytes be h ++ rest)) ≡ (
      record h { flags = header_flags be h.flags; version = header_version h.flags },
      fixed_in be rest,
    )
unfolding from_wire_header in_skip
from_wire_header-header_bytes be expected old h rest free short = ground (
  arith,
  has-header_flags be h.flags free,
  from_wire-wire_bytes host_be be 4 old.len h.len rest short,
  length-append (wire_bytes be 4 h.len) rest,
  length-wire_bytes be 4 h.len,
)
