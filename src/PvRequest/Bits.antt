-- ===== src/PvRequest/Bits.antt =====
-- src/bitmask.h: a list of bits that are set.
use Prim.Native.Nat.{bit_or}
use pvxs.Prelude.Bits.{or_lt, bit_at-zero}
use pvxs.Prelude.{
  ℕ, zero, suc, ◌+◌, ◌^◌, ◌/◌, ◌%◌, ◌≤◌, ◌<◌, ◌≡◌, refl, ◌∙◌, Bool, true, false, ◌||◌, List, [],
  ◌∷◌, ◌==◌, set, length-set, max, All, arith,
}
use pvxs.BitMask.{BitMask, empty, word, get, assign, assign_all, of_bits, resize}
use pvxs.BitMask.Search.{IsStored, word-lt}
use pvxs.BitMask.Access.{get-assign, pow_lt}
use pvxs.BitMask.Scan.{get_digit}
use pvxs.PvRequest.Mask.{range}
use pvxs.BitMask.Resize.{resize_lem}

abbrev pub member : ℕ → List ℕ → Bool
member j [] = false
member j (b ∷ bs) = b == j || member j bs

-- A mask of n bits.
abbrev pub IsMask : ℕ → BitMask → Type 0
IsMask n m = IsStored m × (m.size ≡ n)

set-wide :
    (ws : List ℕ) (i v : ℕ)
    → v < 2 ^ 64
    → All (λ w. w < 2 ^ 64) ws
    → All (λ w. w < 2 ^ 64) (set ws i v)
set-wide [] i v h a = tt
set-wide (w ∷ ws) zero v h a = (h, a.1)
set-wide (w ∷ ws) (suc i) v h a = (a.0, set-wide ws i v h a.1)

assign-IsMask : (n : ℕ) (m : BitMask) (b : ℕ) → IsMask n m → IsMask n (assign m b true)
unfolding assign
assign-IsMask n m b (s, e) =
    let new = bit_or (word m (b / 64)) (2 ^ (b % 64)) in
    (
      record {
        wide =
            set-wide m.words (b / 64) new
              (or_lt 64 (word m (b / 64)) (2 ^ (b % 64)) (word-lt m.words (b / 64) s.wide)
                (pow_lt (b % 64) (omega arith)))
              s.wide;
        enough = omega (arith, s.enough, length-set m.words (b / 64) new);
      },
      e,
    )

pub assign_lem :
    (n : ℕ) (m : BitMask) (b : ℕ)
    → b < n
    → IsMask n m
    → IsMask n (assign m b true) × ((j : ℕ) → get (assign m b true) j ≡ (b == j || get m j))
assign_lem n m b h (s, e) = (
  assign-IsMask n m b (s, e),
  λ j. get-assign m b j true (omega (arith, s.enough, e)) ∙ ground arith,
)

pub assign_all_lem :
    (n : ℕ) (bs : List ℕ) (m : BitMask)
    → All (λ b. b < n) bs
    → IsMask n m
    → IsMask n (assign_all m bs) × ((j : ℕ) → get (assign_all m bs) j ≡ (member j bs || get m j))
unfolding assign_all
assign_all_lem n [] m h k = (k, λ j. refl)
assign_all_lem n (b ∷ bs) m h k =
    let (k1, g1) = assign_lem n m b h.0 k in
    let (k2, g2) = assign_all_lem n bs (assign m b true) h.1 k1 in
    (k2, λ j. g2 j ∙ ground (arith, g1 j))

get-empty : (j : ℕ) → get empty j ≡ false
get-empty j = rw (get_digit empty j, bit_at-zero (j % 64))

-- The constructor with the top bit alone.
pub top_lem :
    (n : ℕ)
    → 0 < n
    → n < 2 ^ 16
    → IsMask n (of_bits (0 ∷ []) n) × ((j : ℕ) → get (of_bits (0 ∷ []) n) j ≡ (0 == j))
unfolding of_bits
top_lem n p h =
    let e : max n 1 ≡ n = omega arith in
    let (stored, sized, _, bits) = resize_lem empty n tt h in
    let (k, g) = assign_lem n (resize empty n) 0 p (stored, sized) in
    rw e (k, λ j. g j ∙ ground (arith, bits j, get-empty j))

pub range-lt : (start n bound : ℕ) → start + n ≤ bound → All (λ b. b < bound) (range start n)
range-lt start zero bound h = tt
range-lt start (suc n) bound h = (omega arith, range-lt (suc start) n bound (omega arith))

pub member-range : (j start n : ℕ) → start ≤ j → j < start + n → member j (range start n) ≡ true
member-range j start zero lo hi = absurd (omega arith)
member-range j start (suc n) lo hi = ground (arith, member-range j (suc start) n)
