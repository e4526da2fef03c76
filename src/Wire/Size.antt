-- ===== src/Wire/Size.antt =====
-- src/pvaproto.h: `Size` and `Selector`, the numbers that take one byte or five.
use pvxs.Prelude.Int.{ℤ, pos, negsuc}
use pvxs.Prelude.{ℕ, ◌-◌, ◌^◌, Bool, ◌&&◌, [], ◌∷◌, ltb, leb, ◌==◌, drop, get_or, if◌then◌else◌}
use pvxs.Wire.Buffer.{Out, Read, ◌>>=◌, in_ensure, in_fault, ensure, out_fault, copy}
use pvxs.Wire.Scalar.{to_wire_u32, from_wire_u32}

-- size_t(-1)
abbrev pub size_max : ℕ
size_max = 2 ^ 64 - 1

-- `push` and `pop`, which the caller has ensured.
abbrev pub push : Out → ℕ → Out
push b v = copy b (v ∷ [])

abbrev pub pop : Read ℕ
pop b = (get_or b.bytes 0 0, record b { bytes = drop 1 b.bytes })

unfoldable pub to_wire_size : Out → ℕ → Out
to_wire_size b size =
    let (b', enough) = ensure b 1 in
    if enough
    then (if ltb size 254
        then push b' size
        else (if leb size 0xffff_ffff then to_wire_u32 (push b' 254) size else out_fault b'))
    else out_fault b'

-- After the first byte.
from_wire_size_rest : Bool → ℕ → ℕ → Read ℕ
from_wire_size_rest allow_null old s b =
    if ltb s 254
    then (s, b)
    else (if s == 254
        then from_wire_u32 0 b
        else (if s == 255 && allow_null then (size_max, b) else (old, in_fault b)))

unfoldable pub from_wire_size : Bool → ℕ → Read ℕ
unfolding from_wire_size_rest
from_wire_size allow_null old b =
    if in_ensure b 1 then (pop >>= from_wire_size_rest allow_null old) b else (old, in_fault b)

unfoldable pub to_wire_selector : Out → ℤ → Out
to_wire_selector b sel =
    let (b', enough) = ensure b 1 in
    if enough
    then elim sel [
      | negsuc n ↦ push b' 255
      | pos n ↦
          if ltb n 254
          then push b' n
          else (if leb n 0xffff_ffff then to_wire_u32 (push b' 254) n else out_fault b')
    ]
    else out_fault b'

from_wire_selector_rest : ℤ → ℕ → Read ℤ
from_wire_selector_rest old s b =
    if ltb s 254
    then (pos s, b)
    else (if s == 254
        then (from_wire_u32 0 >>= λ ls. λ b'. (pos ls, b')) b
        else (if s == 255 then (negsuc 0, b) else (old, in_fault b)))

unfoldable pub from_wire_selector : ℤ → Read ℤ
unfolding from_wire_selector_rest
from_wire_selector old b =
    if in_ensure b 1 then (pop >>= from_wire_selector_rest old) b else (old, in_fault b)
