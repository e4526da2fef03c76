-- ===== src/Wire/Buffer.antt =====
-- src/pvaproto.h, struct Buffer, and its subclasses FixedBuf and VectorOutBuf (src/evhelper.cpp).
-- A buffer that is read is the bytes of [pos, limit); one that is written is the bytes before pos
-- and the number of bytes left before limit. `good` is `!err`.
use pvxs.Prelude.{
  ℕ, ◌+◌, ◌-◌, ◌*◌, ◌/◌, Bool, true, false, ◌&&◌, List, [], ◌++◌, leb, length, drop, if◌then◌else◌,
}

pub record In : Type 0 where
  pub bytes : List ℕ
  pub be : Bool
  pub good : Bool

abbrev pub in_fault : In → In
in_fault b = record b { good = false }

-- `ensure` of a FixedBuf, whose `refill` always fails.
abbrev pub in_ensure : In → ℕ → Bool
in_ensure b i = b.good && leb i (length b.bytes)

-- `skip` of a FixedBuf: past the end it stops at the limit, and faults.
unfoldable pub in_skip : In → ℕ → In
in_skip b i =
    if leb i (length b.bytes)
    then record b { bytes = drop i b.bytes }
    else record b { bytes = []; good = false }

-- A read returns its value and the buffer after it.
abbrev pub Read : Type 0 → Type 0
Read A = In → A × In

abbrev pub pure : {A : Type 0} → A → Read A
pure a b = (a, b)

infixl 5 ◌>>=◌
abbrev pub ◌>>=◌ : {A B : Type 0} → Read A → (A → Read B) → Read B
◌>>=◌ m f b = let r = m b in f r.0 r.1

-- A FixedBuf has a fixed capacity; a VectorOutBuf grows.
pub record Out : Type 0 where
  pub written : List ℕ
  pub room : ℕ
  pub grows : Bool
  pub be : Bool
  pub good : Bool

abbrev pub out_fault : Out → Out
out_fault b = record b { good = false }

-- `((more-1)|0xff)+1` for `more` above 0.
abbrev pub round_up : ℕ → ℕ
round_up more = (more - 1) / 256 * 256 + 256

-- `ensure` is the test below and then this: `VectorOutBuf::refill` adds to the room.
pub refill : Out → ℕ → Out × Bool
refill b more =
    if b.good && b.grows then (record b { room = b.room + round_up more }, true) else (b, false)

unfoldable pub ensure : Out → ℕ → Out × Bool
unfolding refill
ensure b i = if b.good then (if leb i b.room then (b, true) else refill b i) else (b, false)

-- Bytes copied to `pos`, which moves past them. The caller has ensured the room.
abbrev pub copy : Out → List ℕ → Out
copy b bs = record b { written = b.written ++ bs; room = b.room - length bs }

-- The shape that the writers share: ensure, or fault; copy and skip.
unfoldable pub put_bytes : Out → List ℕ → Out
unfolding ensure
put_bytes b bs =
    let (b', enough) = ensure b (length bs) in if enough then copy b' bs else out_fault b'

-- A VectorOutBuf over an empty vector, and a FixedBuf of a given size.
abbrev pub vector_out : Bool → Out
vector_out be = record { written = []; room = 0; grows = true; be = be; good = true }

abbrev pub fixed_out : Bool → ℕ → Out
fixed_out be n = record { written = []; room = n; grows = false; be = be; good = true }

abbrev pub fixed_in : Bool → List ℕ → In
fixed_in be bs = record { bytes = bs; be = be; good = true }
