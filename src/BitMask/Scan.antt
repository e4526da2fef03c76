-- ===== src/BitMask/Scan.antt =====
-- One word of `findSet`: what the masking and the binary search find.
use Prim.Native.Nat.{bit_and, zero, suc}
use native.Mathlib.Nat.{pow-le-pow_right}
use pvxs.Prelude.Bytes.{agree_below, agree_below→eq}
use pvxs.Prelude.Bits.{
  bit_at, bit_at-and, bit_at-lt, bit_at-zero, bit_at_ones, bit_at_complement, and_lt, and_pow,
  and_negative, lowest, lowest_lem,
}
use pvxs.Prelude.{
  ℕ, ◌-◌, ◌*◌, ◌^◌, ◌/◌, ◌%◌, ◌≤◌, ◌<◌, ◌≡◌, refl, ap, subst, sym, ◌∙◌, not, arith, ltb, ◌==◌,
  if◌then◌else◌,
}
use pvxs.BitMask.{BitMask, word, get, from_bit, isolate, first_bit, not64}

first_bit_table : (k : ℕ) → k < 64 → first_bit (2 ^ k) ≡ k
unfolding agree_below first_bit
first_bit_table = agree_below→eq _ _ 64 refl

ones_lt : (b : ℕ) → b < 64 → 2 ^ b - 1 < 2 ^ 64
ones_lt b h =
    let e : 2 ^ b ≤ 2 ^ 63 =
      pow-le-pow_right {n = 2} (omega arith) {i = b} {j = 63} (omega arith) in
    omega (arith, e)

from_bit_digits :
    (w b i : ℕ) → b < 64 → i < 64 → bit_at (from_bit w b) i ≡ (if ltb i b then 0 else bit_at w i)
from_bit_digits w b i hb hi =
    bit_at-and w (not64 (2 ^ b - 1)) i
    ∙ rw (bit_at_complement 64 (2 ^ b - 1) i (ones_lt b hb) hi, bit_at_ones b i)
        (ground (arith, bit_at-lt w i))

-- No digit from b on.
pub scan_none : (w b : ℕ) → b < 64 → from_bit w b ≡ 0 → (i : ℕ) → b ≤ i → i < 64 → bit_at w i ≡ 0
scan_none w b hb e i lo hi =
    ground (arith, from_bit_digits w b i hb hi, ap (λ x. bit_at x i) e, bit_at-zero i)

-- A word with some digit 1: the isolated digit is a power of two, and the search finds its place.
first_bit-isolate : (x : ℕ) → 0 < x → x < 2 ^ 64 → first_bit (isolate x) ≡ lowest 64 x
first_bit-isolate x p h =
    let wrap : (2 ^ 64 - x) % 2 ^ 64 ≡ 2 ^ 64 - x = omega arith in
    let power : isolate x ≡ 2 ^ lowest 64 x = ap (bit_and x) wrap ∙ and_negative 64 x p h in
    ap first_bit power ∙ first_bit_table (lowest 64 x) (lowest_lem 64 x p h).0

-- r is the lowest digit 1 of the word from b on.
abbrev pub IsFirst : ℕ → ℕ → ℕ → Type 0
IsFirst w b r = (b ≤ r) × (r < 64) × (bit_at w r ≡ 1) × ((i : ℕ) → b ≤ i → i < r → bit_at w i ≡ 0)

masked-IsFirst :
    (w b x : ℕ)
    → x < 2 ^ 64
    → 0 < x
    → ((i : ℕ) → i < 64 → bit_at x i ≡ (if ltb i b then 0 else bit_at w i))
    → IsFirst w b (lowest 64 x)
masked-IsFirst w b x hx p digit =
    let (bound, one, below) = lowest_lem 64 x p hx in
    let d = digit (lowest 64 x) bound in
    (
      ground (arith, d, one),
      bound,
      ground (arith, d, one),
      λ i lo hi. ground (arith, digit i (omega (arith, bound)), below i hi),
    )

-- The lowest digit from b on.
pub scan_some :
    (w b : ℕ)
    → w < 2 ^ 64
    → b < 64
    → 0 < from_bit w b
    → IsFirst w b (first_bit (isolate (from_bit w b)))
scan_some w b hw hb p =
    let small : from_bit w b < 2 ^ 64 = and_lt 64 w (not64 (2 ^ b - 1)) hw in
    subst (IsFirst w b) (sym (first_bit-isolate (from_bit w b) p small))
      (masked-IsFirst w b (from_bit w b) small p (λ i hi. from_bit_digits w b i hb hi))

digit_test : (d k : ℕ) → d < 2 → not (d * 2 ^ k == 0) ≡ (d == 1)
digit_test zero k h = let e : 0 * 2 ^ k ≡ 0 = omega arith in rw e
digit_test (suc zero) k h =
    let e : 0 < 1 * 2 ^ k =
      omega (arith, pow-le-pow_right {n = 2} (omega arith) {i = 0} {j = k} (omega arith)) in
    ground (arith, e)
digit_test (suc (suc d)) k h = absurd (omega arith)

-- `operator[]` reads the digit.
pub get_digit : (m : BitMask) (j : ℕ) → get m j ≡ (bit_at (word m (j / 64)) (j % 64) == 1)
unfolding get
get_digit m j =
    rw (and_pow (j % 64) (word m (j / 64)))
      (digit_test (bit_at (word m (j / 64)) (j % 64)) (j % 64) (bit_at-lt _ (j % 64)))
