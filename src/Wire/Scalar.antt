-- ===== src/Wire/Scalar.antt =====
-- src/pvaproto.h: `_to_wire` and `_from_wire`, and `to_wire` and `from_wire` of a scalar.
-- A scalar of n bytes is its bit pattern, a number below 256 ^ n.
use Prim.Native.Nat.{ℕ, zero, suc, ◌+◌, ◌*◌, ◌/◌, ◌%◌}
use pvxs.Prelude.{Bool, true, false, xor, List, [], ◌∷◌, reverse, take, drop, if◌then◌else◌}
use pvxs.Wire.Buffer.{Out, Read, in_ensure, in_fault, put_bytes}

-- The n bytes of a number, lowest first.
unfoldable pub le_bytes : ℕ → ℕ → List ℕ
le_bytes zero v = []
le_bytes (suc n) v = (v % 256) ∷ le_bytes n (v / 256)

unfoldable pub le_value : List ℕ → ℕ
le_value [] = 0
le_value (b ∷ bs) = b + 256 * le_value bs

-- The bytes of `pun.b` on a host of either byte order, and the number that such bytes stand for.
abbrev pub host_bytes : Bool → ℕ → ℕ → List ℕ
host_bytes host_be n v = if host_be then reverse (le_bytes n v) else le_bytes n v

abbrev pub host_value : Bool → List ℕ → ℕ
host_value host_be mem = if host_be then le_value (reverse mem) else le_value mem

abbrev pub swap_if : Bool → List ℕ → List ℕ
swap_if true mem = reverse mem
swap_if false mem = mem

-- `_to_wire<N>`
pub raw_to_wire : Out → List ℕ → Bool → Out
raw_to_wire b mem swap = put_bytes b (swap_if swap mem)

-- `_from_wire<N>`; on a fault the memory keeps what it held.
pub raw_from_wire : ℕ → List ℕ → Bool → Read (List ℕ)
raw_from_wire n mem swap b =
    if in_ensure b n
    then (swap_if swap (take n b.bytes), record b { bytes = drop n b.bytes })
    else (mem, in_fault b)

unfoldable pub to_wire : Bool → ℕ → Out → ℕ → Out
unfolding raw_to_wire
to_wire host_be n b v = raw_to_wire b (host_bytes host_be n v) (xor b.be host_be)

-- `if(buf.good()) val = pun.v;`
unfoldable pub from_wire : Bool → ℕ → ℕ → Read ℕ
unfolding raw_from_wire
from_wire host_be n old b =
    let (mem, b') = raw_from_wire n [] (xor b.be host_be) b in
    (if b'.good then host_value host_be mem else old, b')

-- What is on the wire, by the byte order of the buffer alone.
abbrev pub wire_bytes : Bool → ℕ → ℕ → List ℕ
wire_bytes be n v = if be then reverse (le_bytes n v) else le_bytes n v

-- `hostBE`, fixed when the program is built. The laws hold for either value.
unfoldable pub host_be : Bool
host_be = false

abbrev pub to_wire_u16 : Out → ℕ → Out
to_wire_u16 = to_wire host_be 2

abbrev pub to_wire_u32 : Out → ℕ → Out
to_wire_u32 = to_wire host_be 4

abbrev pub to_wire_u64 : Out → ℕ → Out
to_wire_u64 = to_wire host_be 8

-- The overload for a scalar of one byte.
abbrev pub to_wire_u8 : Out → ℕ → Out
to_wire_u8 b v = put_bytes b (v ∷ [])

abbrev pub from_wire_u8 : ℕ → Read ℕ
from_wire_u8 = from_wire host_be 1

abbrev pub from_wire_u16 : ℕ → Read ℕ
from_wire_u16 = from_wire host_be 2

abbrev pub from_wire_u32 : ℕ → Read ℕ
from_wire_u32 = from_wire host_be 4

abbrev pub from_wire_u64 : ℕ → Read ℕ
from_wire_u64 = from_wire host_be 8
