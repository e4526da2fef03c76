-- ===== src/Prelude/Bits.antt =====
-- Binary digits of numbers, and what `&` and `|` do to them at every width.
use Prim.Native.Nat.{
  ℕ, zero, suc, ◌+◌, ◌-◌, ◌*◌, ◌/◌, ◌%◌, ◌^◌, ◌≤◌, ◌<◌, min, max, bit_and, bit_or, digits, bitwise,
  bit_and-bitwise, bit_or-bitwise,
}
use Prim.Native.Nat.add
use mathlib.Core.Path.{◌≡◌, refl, sym, ap, ◌∙◌}
use mathlib.Core.Logic.{inl, inr}
use native.Mathlib.Nat.{div-div-eq-div-mul, zero-add}
use pvxs.Prelude.Tests.{if◌then◌else◌, ltb, ◌==◌, Bool-cases}
use native.Mathlib.Decide.{dec_le}
use native.Mathlib.Omega.{arith}

-- A digit-wise operation, where `z` agrees with a first number whose digits have run out.
module _ (z : ℕ → ℕ) (f : ℕ → ℕ → ℕ) (rest : (b : ℕ) → z b ≡ z (b / 2) * 2 + f 0 (b % 2)) where
  spare_round : (n a b : ℕ) → a ≤ n → digits z f (suc n) a b ≡ digits z f n a b
  spare_round n zero b h = zero_rounds n
    where
      zero_rounds : (n : ℕ) → digits z f (suc n) 0 b ≡ digits z f n 0 b
      zero_rounds zero = refl
      zero_rounds (suc n) = refl
  spare_round zero (suc a) b h = absurd (omega arith)
  spare_round (suc n) (suc a) b h = omega (arith, spare_round n (suc a / 2) (b / 2) (omega arith))

  -- As many rounds as the number says are as good as any more.
  enough_rounds : (n a b : ℕ) → a ≤ n → digits z f n a b ≡ bitwise z f a b
  enough_rounds zero a b h = let e : a ≡ 0 = omega arith in rw e
  enough_rounds (suc n) a b h = elim (dec_le a n) [
    | yes p ↦ spare_round n a b p ∙ enough_rounds n a b p
    | no p ↦ let e : a ≡ suc n = omega arith in rw e
  ]

  pub bitwise_step :
      (a b : ℕ) → bitwise z f a b ≡ bitwise z f (a / 2) (b / 2) * 2 + f (a % 2) (b % 2)
  bitwise_step zero b = rest b
  bitwise_step (suc a) b = omega (arith, enough_rounds a (suc a / 2) (b / 2) (omega arith))

pub and_step : (a b : ℕ) → bit_and a b ≡ bit_and (a / 2) (b / 2) * 2 + min (a % 2) (b % 2)
and_step a b = omega (
  arith,
  bit_and-bitwise a b,
  bit_and-bitwise (a / 2) (b / 2),
  bitwise_step (λ _. 0) min (λ b. omega arith) a b,
)

pub or_step : (a b : ℕ) → bit_or a b ≡ bit_or (a / 2) (b / 2) * 2 + max (a % 2) (b % 2)
or_step a b = omega (
  arith,
  bit_or-bitwise a b,
  bit_or-bitwise (a / 2) (b / 2),
  bitwise_step (λ b. b) max (λ b. omega arith) a b,
)

pow_pos : (k : ℕ) → 0 < 2 ^ k
pow_pos zero = omega arith
pow_pos (suc k) = omega (arith, pow_pos k)

-- The digit at place i.
pub bit_at : ℕ → ℕ → ℕ
bit_at x zero = x % 2
bit_at x (suc i) = bit_at (x / 2) i

pub bit_at-lt : (x i : ℕ) → bit_at x i < 2
unfolding bit_at
bit_at-lt x zero = omega arith
bit_at-lt x (suc i) = bit_at-lt (x / 2) i

pub bit_at-zero : (i : ℕ) → bit_at 0 i ≡ 0
unfolding bit_at
bit_at-zero zero = refl
bit_at-zero (suc i) = bit_at-zero i

pub bit_at-and : (a b i : ℕ) → bit_at (bit_and a b) i ≡ min (bit_at a i) (bit_at b i)
unfolding bit_at
bit_at-and a b zero = omega (arith, and_step a b)
bit_at-and a b (suc i) =
    let half : bit_and a b / 2 ≡ bit_and (a / 2) (b / 2) = omega (arith, and_step a b) in
    rw half (bit_at-and (a / 2) (b / 2) i)

pub bit_at-or : (a b i : ℕ) → bit_at (bit_or a b) i ≡ max (bit_at a i) (bit_at b i)
unfolding bit_at
bit_at-or a b zero = omega (arith, or_step a b)
bit_at-or a b (suc i) =
    let half : bit_or a b / 2 ≡ bit_or (a / 2) (b / 2) = omega (arith, or_step a b) in
    rw half (bit_at-or (a / 2) (b / 2) i)

pub bit_at-div : (x k i : ℕ) → bit_at (x / 2 ^ k) i ≡ bit_at x (k + i)
unfolding bit_at
bit_at-div x zero i = let e : x / 1 ≡ x = omega arith in rw (e, zero-add)
bit_at-div x (suc k) i =
    let e : x / 2 ^ suc k ≡ x / 2 / 2 ^ k =
      ap (◌/◌ x) (omega arith) ∙ sym (div-div-eq-div-mul x 2 (2 ^ k)) in
    rw (e, add.suc) (bit_at-div (x / 2) k i)

-- Numbers below 2 ^ w with the same w digits are equal.
pub bit_at_ext :
    (w x y : ℕ) → x < 2 ^ w → y < 2 ^ w → ((i : ℕ) → i < w → bit_at x i ≡ bit_at y i) → x ≡ y
unfolding bit_at
bit_at_ext zero x y hx hy h = omega arith
bit_at_ext (suc w) x y hx hy h = omega (
  arith,
  h 0 (omega arith),
  bit_at_ext w (x / 2) (y / 2) (omega arith) (omega arith) (λ i lt. h (suc i) (omega arith)),
)

two_pow : (k : ℕ) → 2 ^ suc k ≡ 2 * 2 ^ k
two_pow k = omega arith

twice_shl : (k x : ℕ) → x * 2 ^ suc k ≡ x * 2 ^ k * 2
twice_shl k x = let e : 2 ^ suc k ≡ 2 ^ k * 2 = omega arith in omega (arith, ap (◌*◌ x) e)

pub bit_at_shl : (k x i : ℕ) → bit_at (x * 2 ^ k) i ≡ (if ltb i k then 0 else bit_at x (i - k))
unfolding bit_at
bit_at_shl zero x i = ground arith
bit_at_shl (suc k) x zero =
    let e : x * 2 ^ suc k % 2 ≡ 0 = omega (arith, twice_shl k x) in rw e (ground arith)
bit_at_shl (suc k) x (suc i) =
    let e : x * 2 ^ suc k / 2 ≡ x * 2 ^ k = omega (arith, twice_shl k x) in
    let d : suc i - suc k ≡ i - k = omega arith in rw (e, d, bit_at_shl k x i) (ground arith)

-- `2 ^ k - 1` has the digits below k.
pub bit_at_ones : (k i : ℕ) → bit_at (2 ^ k - 1) i ≡ (if ltb i k then 1 else 0)
unfolding bit_at
bit_at_ones zero i = bit_at-zero i ∙ ground arith
bit_at_ones (suc k) zero =
    let e : (2 ^ suc k - 1) % 2 ≡ 1 = omega (arith, pow_pos k) in rw e (ground arith)
bit_at_ones (suc k) (suc i) =
    let e : (2 ^ suc k - 1) / 2 ≡ 2 ^ k - 1 = omega (arith, pow_pos k) in
    rw (e, bit_at_ones k i) (ground arith)

-- `2 ^ w - 1 - x` has the digits that x lacks.
pub bit_at_complement : (w x i : ℕ) → x < 2 ^ w → i < w → bit_at (2 ^ w - 1 - x) i ≡ 1 - bit_at x i
unfolding bit_at
bit_at_complement zero x i hx hi = absurd (omega arith)
bit_at_complement (suc w) x zero hx hi = omega arith
bit_at_complement (suc w) x (suc i) hx hi =
    let e : (2 ^ suc w - 1 - x) / 2 ≡ 2 ^ w - 1 - x / 2 = omega arith in
    rw e (bit_at_complement w (x / 2) i (omega arith) (omega arith))

pub bit_at_high : (w x i : ℕ) → x < 2 ^ w → w ≤ i → bit_at x i ≡ 0
unfolding bit_at
bit_at_high zero x i hx hi = let e : x ≡ 0 = omega arith in rw e (bit_at-zero i)
bit_at_high (suc w) x zero hx hi = absurd (omega arith)
bit_at_high (suc w) x (suc i) hx hi = bit_at_high w (x / 2) i (omega arith) (omega arith)

pub lt_pow_of_bits : (w v x : ℕ) → x < 2 ^ v → ((i : ℕ) → w ≤ i → bit_at x i ≡ 0) → x < 2 ^ w
unfolding bit_at
lt_pow_of_bits zero v x hx h =
    let e : x ≡ 0 =
      bit_at_ext v x 0 hx (pow_pos v) (λ i _. h i (omega arith) ∙ sym (bit_at-zero i)) in
    omega arith
lt_pow_of_bits (suc w) v x hx h =
    let half = lt_pow_of_bits w v (x / 2) (omega arith) (λ i lt. h (suc i) (omega arith)) in
    omega (arith, half)

and_zero : (b : ℕ) → bit_and 0 b ≡ 0
and_zero b = bit_and-bitwise 0 b

pub and_lt : (w a b : ℕ) → a < 2 ^ w → bit_and a b < 2 ^ w
and_lt zero a b h = let e : a ≡ 0 = omega arith in rw (e, and_zero b) (omega arith)
and_lt (suc w) a b h = omega (arith, and_step a b, and_lt w (a / 2) (b / 2) (omega arith))

pub or_lt : (w a b : ℕ) → a < 2 ^ w → b < 2 ^ w → bit_or a b < 2 ^ w
or_lt zero a b h g =
    let e : a ≡ 0 = omega arith in
    let d : b ≡ 0 = omega arith in rw (e, d) (omega (arith, bit_or-bitwise 0 0))
or_lt (suc w) a b h g =
    omega (arith, or_step a b, or_lt w (a / 2) (b / 2) (omega arith) (omega arith))

-- The place of the lowest digit 1, of w digits.
pub lowest : ℕ → ℕ → ℕ
lowest zero x = 0
lowest (suc w) x = if x % 2 == 1 then 0 else suc (lowest w (x / 2))

and_complement : (w x : ℕ) → x < 2 ^ w → bit_and x (2 ^ w - 1 - x) ≡ 0
and_complement zero x h = let e : x ≡ 0 = omega arith in rw e (and_zero (2 ^ 0 - 1 - 0))
and_complement (suc w) x h =
    let e : (2 ^ suc w - 1 - x) / 2 ≡ 2 ^ w - 1 - x / 2 = omega arith in
    omega (
      arith,
      and_step x (2 ^ suc w - 1 - x),
      ap (bit_and (x / 2)) e,
      and_complement w (x / 2) (omega arith),
    )

-- `x & -x` in w digits keeps the lowest digit 1 alone.
pub and_negative : (w x : ℕ) → 0 < x → x < 2 ^ w → bit_and x (2 ^ w - x) ≡ 2 ^ lowest w x
unfolding lowest
and_negative zero x p h = absurd (omega arith)
and_negative (suc w) x p h = elim (Bool-cases (x % 2 == 1)) [
  | inl odd ↦
      let o : x % 2 ≡ 1 = ground arith in
      let e : (2 ^ suc w - x) / 2 ≡ 2 ^ w - 1 - x / 2 = omega arith in
      rw odd (
        omega (
          arith,
          and_step x (2 ^ suc w - x),
          ap (bit_and (x / 2)) e,
          and_complement w (x / 2) (omega arith),
        ))
  | inr even ↦
      let o : x % 2 ≡ 0 = ground arith in
      let e : (2 ^ suc w - x) / 2 ≡ 2 ^ w - x / 2 = omega arith in
      rw even (
        omega (
          arith,
          and_step x (2 ^ suc w - x),
          ap (bit_and (x / 2)) e,
          and_negative w (x / 2) (omega arith) (omega arith),
          two_pow (lowest w (x / 2)),
        ))
]

pub lowest_lem :
    (w x : ℕ)
    → 0 < x
    → x < 2 ^ w
    → (lowest w x < w) × (bit_at x (lowest w x) ≡ 1) × ((i : ℕ) → i < lowest w x → bit_at x i ≡ 0)
unfolding lowest bit_at
lowest_lem zero x p h = absurd (omega arith)
lowest_lem (suc w) x p h = elim (Bool-cases (x % 2 == 1)) [
  | inl odd ↦ rw odd (omega arith, ground arith, λ i lt. absurd (omega arith))
  | inr even ↦
      let (bound, one, below) = lowest_lem w (x / 2) (ground arith) (omega arith) in
      rw even (omega (arith, bound), one, zero_below (ground arith) below)
]
  where
    zero_below :
        {n : ℕ}
        → x % 2 ≡ 0
        → ((i : ℕ) → i < n → bit_at (x / 2) i ≡ 0)
        → (i : ℕ) → i < suc n
        → bit_at x i ≡ 0
    zero_below even below zero lt = even
    zero_below even below (suc i) lt = below i (omega arith)

and_nothing : (n a : ℕ) → a ≤ n → bit_and a 0 ≡ 0
and_nothing zero a h = let e : a ≡ 0 = omega arith in rw e (and_zero 0)
and_nothing (suc n) zero h = and_zero 0
and_nothing (suc n) (suc a) h =
    omega (arith, and_step (suc a) 0, and_nothing n (suc a / 2) (omega arith))

pub or_nothing : (n a : ℕ) → a ≤ n → bit_or a 0 ≡ a
or_nothing n zero h = bit_or-bitwise 0 0
or_nothing zero (suc a) h = absurd (omega arith)
or_nothing (suc n) (suc a) h =
    omega (arith, or_step (suc a) 0, or_nothing n (suc a / 2) (omega arith))

-- A test of one digit.
pub and_pow : (k x : ℕ) → bit_and x (2 ^ k) ≡ bit_at x k * 2 ^ k
unfolding bit_at
and_pow zero x = omega (arith, and_step x 1, and_nothing (x / 2) (x / 2) (omega arith))
and_pow (suc k) x =
    let e : 2 ^ suc k / 2 ≡ 2 ^ k = omega arith in
    let d : 2 ^ suc k % 2 ≡ 0 = omega arith in
    omega (
      arith,
      and_step x (2 ^ suc k),
      ap (bit_and (x / 2)) e,
      and_pow k (x / 2),
      twice_shl k (bit_at (x / 2) k),
    )

-- `|` of numbers whose digits do not meet is their sum.
pub or_low : (k q b : ℕ) → b < 2 ^ k → bit_or (q * 2 ^ k) b ≡ q * 2 ^ k + b
or_low zero q b h =
    let e : b ≡ 0 = omega arith in
    let d : q * 2 ^ 0 ≡ q = omega arith in rw (e, d, or_nothing q q (omega arith)) (omega arith)
or_low (suc k) q b h =
    let e : q * 2 ^ suc k / 2 ≡ q * 2 ^ k = omega (arith, twice_shl k q) in
    omega (
      arith,
      or_step (q * 2 ^ suc k) b,
      ap (λ (t : ℕ). bit_or t (b / 2)) e,
      or_low k q (b / 2) (omega arith),
      twice_shl k q,
    )

bit_at_one : (i : ℕ) → bit_at 1 i ≡ (if i == 0 then 1 else 0)
unfolding bit_at
bit_at_one zero = refl
bit_at_one (suc i) = rw (bit_at-zero i) (ground arith)

pub bit_at_pow : (k i : ℕ) → bit_at (2 ^ k) i ≡ (if k == i then 1 else 0)
bit_at_pow k i =
    let e : 1 * 2 ^ k ≡ 2 ^ k = omega arith in
    ground (arith, ap (λ t. bit_at t i) e, bit_at_shl k 1 i, bit_at_one (i - k))
