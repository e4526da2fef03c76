-- ===== src/Wire/Header/Flags.antt =====
-- src/pvaproto.h: `pva_flags`.
use Prim.Native.Nat.{ℕ}

abbrev pub control : ℕ
control = 0x01

abbrev pub seg_first : ℕ
seg_first = 0x10

abbrev pub seg_last : ℕ
seg_last = 0x20

abbrev pub seg_mask : ℕ
seg_mask = 0x30

abbrev pub server : ℕ
server = 0x40

abbrev pub msb : ℕ
msb = 0x80
