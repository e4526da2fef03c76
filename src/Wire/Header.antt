-- ===== src/Wire/Header.antt =====
-- src/pvaproto.h: the eight bytes before each message.
pub mod Flags
use Prim.Native.Nat.{bit_and, bit_or}
use pvxs.Prelude.{ℕ, Bool, true, false, not, ◌||◌, List, [], ◌∷◌, ◌==◌, drop, get_or, if◌then◌else◌}
use pvxs.Wire.Buffer.{In, Out, Read, ◌>>=◌, in_ensure, in_fault, in_skip, ensure, out_fault, copy}
use pvxs.Wire.Scalar.{to_wire_u32, from_wire_u32}

-- A flag is set.
abbrev pub has : ℕ → ℕ → Bool
has flags f = not (bit_and flags f == 0)

abbrev pub pva_client : ℕ
pva_client = 2

abbrev pub pva_server : ℕ
pva_server = 2

pub record Header : Type 0 where
  pub cmd : ℕ
  pub flags : ℕ
  pub version : ℕ
  pub len : ℕ

abbrev pub header_flags : Bool → ℕ → ℕ
header_flags be flags = if be then bit_or flags Flags.msb else flags

abbrev pub header_version : ℕ → ℕ
header_version flags = if has flags Flags.server then pva_server else pva_client

unfoldable pub to_wire_header : Out → Header → Out
to_wire_header b h =
    let (b', enough) = ensure b 8 in
    if enough
    then to_wire_u32
        (copy b' (0xca ∷ header_version h.flags ∷ header_flags b.be h.flags ∷ h.cmd ∷ [])) h.len
    else out_fault b'

from_wire_header_body : Header → Read Header
from_wire_header_body old b =
    let flags = get_or b.bytes 2 0 in
    let b' : In = in_skip (record b { be = has flags Flags.msb }) 4 in
    let r = from_wire_u32 old.len b' in
    (
      record { cmd = get_or b.bytes 3 0; flags = flags; version = get_or b.bytes 1 0; len = r.0 },
      r.1,
    )

unfoldable pub from_wire_header : Header → Read Header
unfolding from_wire_header_body
from_wire_header old b =
    if not (in_ensure b 8) || not (get_or b.bytes 0 0 == 0xca) || (get_or b.bytes 1 0 == 0)
    then (old, in_fault b)
    else from_wire_header_body old b
