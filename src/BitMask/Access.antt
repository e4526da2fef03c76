-- ===== src/BitMask/Access.antt =====
-- `operator[]`: a bit that is assigned is read back, and the others keep their values.
use Prim.Native.Nat.{bit_and, bit_or}
use pvxs.Prelude.Bits.{bit_at, bit_at-and, bit_at-or, bit_at-lt, bit_at_pow, bit_at_complement}
use pvxs.Prelude.{
  ℕ, ◌^◌, ◌/◌, ◌%◌, ◌≤◌, ◌<◌, ◌≡◌, ◌≢◌, ap, Bool, true, false, arith, ◌==◌, if◌then◌else◌, get_or,
  set, get_or-set_self, get_or-set_ne, length,
}
use native.Mathlib.Nat.{pow-le-pow_right}
use native.Mathlib.Decide.{ℕ_discrete}
use pvxs.BitMask.{BitMask, word, get, assign, not64}
use pvxs.BitMask.Scan.{get_digit}

pub pow_lt : (k : ℕ) → k < 64 → 2 ^ k < 2 ^ 64
pow_lt k h =
    let e : 2 ^ k ≤ 2 ^ 63 =
      pow-le-pow_right {n = 2} (omega arith) {i = k} {j = 63} (omega arith) in
    omega (arith, e)

-- The digits of the word after a bit of it is assigned.
assigned_digit :
    (w k i : ℕ) (v : Bool)
    → k < 64
    → i < 64
    → bit_at (if v then bit_or w (2 ^ k) else bit_and w (not64 (2 ^ k))) i
      ≡ (if k == i then (if v then 1 else 0) else bit_at w i)
assigned_digit w k i true hk hi =
    ground (arith, bit_at-or w (2 ^ k) i, bit_at_pow k i, bit_at-lt w i)
assigned_digit w k i false hk hi = ground (
  arith,
  bit_at-and w (not64 (2 ^ k)) i,
  bit_at_complement 64 (2 ^ k) i (pow_lt k hk) hi,
  bit_at_pow k i,
  bit_at-lt w i,
)

-- Reading bit j after assigning v to bit i, within the words, gives v if j is i and the old bit
-- otherwise.
pub get-assign :
    (m : BitMask) (i j : ℕ) (v : Bool)
    → i / 64 < length m.words
    → get (assign m i v) j ≡ (if i == j then v else get m j)
unfolding assign
get-assign m i j v h =
    let new : ℕ =
      if v
      then bit_or (word m (i / 64)) (2 ^ (i % 64))
      else bit_and (word m (i / 64)) (not64 (2 ^ (i % 64))) in
    elim (ℕ_discrete (i / 64) (j / 64)) [
      | yes e ↦
          let same : get_or (set m.words (i / 64) new) (j / 64) 0 ≡ new =
            rw (← e) (get_or-set_self m.words (i / 64) new 0 h) in
          rw (get_digit (assign m i v) j, same, get_digit m j, ← e)
            (rw (assigned_digit (word m (i / 64)) (i % 64) (j % 64) v (omega arith) (omega arith))
              (ground arith))
      | no e ↦
          let other : get_or (set m.words (i / 64) new) (j / 64) 0 ≡ get_or m.words (j / 64) 0 =
            get_or-set_ne m.words (i / 64) (j / 64) new 0 e in
          let apart : i ≢ j = λ p. e (ap (λ t. t / 64) p) in
          rw (get_digit (assign m i v) j, other, get_digit m j) (ground arith)
    ]
