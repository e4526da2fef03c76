-- ===== src/BitMask.antt =====
-- src/bitmask.h and src/bitmask.cpp: sets of field numbers in 64-bit words.
use Prim.Native.Nat.{ℕ, zero, suc, ◌+◌, ◌-◌, ◌*◌, ◌/◌, ◌%◌, ◌^◌, max, bit_and, bit_or}
pub mod Scan
pub mod Search
pub mod Access
pub mod Resize
mod Tests
use pvxs.Prelude.{
  Bool, true, false, not, ◌&&◌, Option, none, some, List, [], ◌∷◌, ltb, leb, ◌==◌, get_or, length,
  set, if◌then◌else◌,
}

pub record BitMask : Type 0 where
  pub words : List ℕ
  pub size : ℕ

abbrev pub empty : BitMask
empty = record { words = []; size = 0 }

-- `_words[i]`; the source does not read past the words.
abbrev pub word : BitMask → ℕ → ℕ
word m i = get_or m.words i 0

-- `~x` of a uint64_t.
abbrev pub not64 : ℕ → ℕ
not64 x = 2 ^ 64 - 1 - x

-- `((bits-1u)|0x3f)+1u` in size_t.
pub store_bits : ℕ → ℕ
store_bits bits = (bit_or ((bits + (2 ^ 64 - 1)) % 2 ^ 64) 0x3f + 1) % 2 ^ 64

-- `vector::resize(n, 0u)`
unfoldable pub resize_words : ℕ → List ℕ → List ℕ
resize_words zero ws = []
resize_words (suc n) [] = 0 ∷ resize_words n []
resize_words (suc n) (w ∷ ws) = w ∷ resize_words n ws

unfoldable pub resize : BitMask → ℕ → BitMask
unfolding store_bits
resize m bits = record { words = resize_words (store_bits bits / 64) m.words; size = bits % 2 ^ 16 }

-- `operator[]`, read and assigned.
unfoldable pub get : BitMask → ℕ → Bool
get m bit = not (bit_and (word m (bit / 64)) (2 ^ (bit % 64)) == 0)

unfoldable pub assign : BitMask → ℕ → Bool → BitMask
assign m bit v =
    let old = word m (bit / 64) in
    let one = 2 ^ (bit % 64) in
    record m {
      words = set m.words (bit / 64) (if v then bit_or old one else bit_and old (not64 one));
    }

unfoldable pub assign_all : BitMask → List ℕ → BitMask
assign_all m [] = m
assign_all m (b ∷ bits) = assign_all (assign m b true) bits

max_of : ℕ → List ℕ → ℕ
max_of a [] = a
max_of a (b ∷ bits) = max_of (max a b) bits

-- The constructor from bit numbers.
unfoldable pub of_bits : List ℕ → ℕ → BitMask
unfolding assign_all max_of
of_bits [] nbits = resize empty nbits
of_bits (b ∷ bits) nbits = assign_all (resize empty (max nbits (1 + max_of b bits))) (b ∷ bits)

-- The place of the digit of a power of two, by a binary search.
pub first_bit : ℕ → ℕ
first_bit x =
    63
    - (if bit_and x 0x0000_0000_ffff_ffff == 0 then 0 else 32)
    - (if bit_and x 0x0000_ffff_0000_ffff == 0 then 0 else 16)
    - (if bit_and x 0x00ff_00ff_00ff_00ff == 0 then 0 else 8)
    - (if bit_and x 0x0f0f_0f0f_0f0f_0f0f == 0 then 0 else 4)
    - (if bit_and x 0x3333_3333_3333_3333 == 0 then 0 else 2)
    - (if bit_and x 0x5555_5555_5555_5555 == 0 then 0 else 1)

-- `masked & -masked`
abbrev pub isolate : ℕ → ℕ
isolate x = bit_and x ((2 ^ 64 - x) % 2 ^ 64)

-- The word without its digits below `bit`.
abbrev pub from_bit : ℕ → ℕ → ℕ
from_bit w bit = bit_and w (not64 (2 ^ bit - 1))

-- The loop of `findSet`, on fuel; `none` is out of fuel.
pub find_loop : ℕ → BitMask → ℕ → Option ℕ
find_loop zero m start = none
find_loop (suc fuel) m start =
    let rest = find_loop fuel m ((start / 64 + 1) * 64) in
    let masked = from_bit (word m (start / 64)) (start % 64) in
    let found = some (bit_or (start / 64 * 64) (first_bit (isolate masked))) in
    if ltb start m.size then (if masked == 0 then rest else found) else some m.size

-- Each round moves to the next word, so one round more than there are words is enough.
unfoldable pub find_set : BitMask → ℕ → Option ℕ
unfolding find_loop first_bit
find_set m start = find_loop (suc (length m.words)) m start

equal_words : List ℕ → List ℕ → Bool
equal_words [] ws = true
equal_words (v ∷ vs) [] = false
equal_words (v ∷ vs) (w ∷ ws) = v == w && equal_words vs ws

-- `operator==`
unfoldable pub equal : BitMask → BitMask → Bool
unfolding equal_words
equal l r = if l.size == r.size then equal_words l.words r.words else false
