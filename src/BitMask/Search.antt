-- ===== src/BitMask/Search.antt =====
-- `findSet`: the loop ends, and finds the first bit that is set.
use native.Mathlib.Decide.{dec_lt}
use pvxs.Prelude.Bits.{bit_at, bit_at-lt, or_low}
use pvxs.Prelude.{
  ℕ, zero, suc, ◌+◌, ◌*◌, ◌^◌, ◌/◌, ◌%◌, ◌≤◌, ◌<◌, ◌≡◌, ◌≢◌, refl, Bool, true, false, List, [], ◌∷◌,
  arith, some, if◌then◌else◌, get_or, min, All, length,
}
use pvxs.BitMask.{BitMask, word, get, from_bit, isolate, first_bit, find_loop, find_set}
use pvxs.BitMask.Scan.{IsFirst, scan_none, scan_some, get_digit}

-- Each word is a uint64_t, and there are words for every bit.
pub record IsStored (m : BitMask) : Type 0 where
  pub wide : All (λ w. w < 2 ^ 64) m.words
  pub enough : m.size ≤ 64 * length m.words

pub word-lt : (ws : List ℕ) (i : ℕ) → All (λ w. w < 2 ^ 64) ws → get_or ws i 0 < 2 ^ 64
word-lt [] i h = omega arith
word-lt (w ∷ ws) zero h = h.0
word-lt (w ∷ ws) (suc i) h = word-lt ws i h.1

-- Between `start` and r no bit below the size is set, and r is set unless it is the size.
pub record Finds (m : BitMask) (start r : ℕ) : Type 0 where
  pub forward : min start m.size ≤ r
  pub none_before : (j : ℕ) → start ≤ j → j < r → j < m.size → get m j ≡ false
  pub is_set : r ≢ m.size → get m r ≡ true

past_end : (m : BitMask) (start : ℕ) → m.size ≤ start → Finds m start m.size
past_end m start h = record {
  forward = omega arith;
  none_before = λ j lo _ hi. absurd (omega arith);
  is_set = λ p. absurd (p refl);
}

-- What one word says of its bits.
get_in_word :
    (m : BitMask) (q j : ℕ) → j / 64 ≡ q → bit_at (word m q) (j % 64) ≡ 0 → get m j ≡ false
get_in_word m q j e d = rw (get_digit m j, e, d)

skip_word :
    (m : BitMask) (start r : ℕ)
    → from_bit (word m (start / 64)) (start % 64) ≡ 0
    → start < m.size
    → Finds m ((start / 64 + 1) * 64) r
    → Finds m start r
skip_word m start r e h f = record {
  forward = omega (arith, f.forward);
  none_before = λ j l u p. elim (dec_lt j ((start / 64 + 1) * 64)) [
    | yes near ↦ get_in_word m (start / 64) j (omega arith) (
        scan_none (word m (start / 64)) (start % 64) (omega arith) e (j % 64) (omega arith)
          (omega arith))
    | no far ↦ f.none_before j (omega arith) u p
  ];
  is_set = f.is_set;
}

in_word :
    (m : BitMask) (start b : ℕ)
    → IsFirst (word m (start / 64)) (start % 64) b
    → Finds m start (start / 64 * 64 + b)
in_word m start b (lo, hi, one, below) = record {
  forward = omega arith;
  none_before = λ j l u _.
      get_in_word m (start / 64) j (omega arith) (below (j % 64) (omega arith) (omega arith));
  is_set = λ p.
      let e : (start / 64 * 64 + b) / 64 ≡ start / 64 = omega arith in
      let d : (start / 64 * 64 + b) % 64 ≡ b = omega arith in
      rw (get_digit m (start / 64 * 64 + b), e, d, one);
}

-- The loop is given as many rounds as there are words from `start` on, and one more.
find_loop_lem :
    (fuel : ℕ) (m : BitMask) (start : ℕ)
    → IsStored m
    → m.size ≤ 64 * (start / 64) + 64 * fuel
    → (r : ℕ) × (find_loop (suc fuel) m start ≡ some r) × Finds m start r
unfolding find_loop
find_loop_lem zero m start s h = (m.size, ground arith, past_end m start (omega arith))
find_loop_lem (suc fuel) m start s h = elim (dec_lt start m.size) [
  | no past ↦ (m.size, ground arith, past_end m start (omega arith))
  | yes more ↦ elim (dec_lt 0 (from_bit (word m (start / 64)) (start % 64))) [
    | yes some_bit ↦
        let hit =
          scan_some (word m (start / 64)) (start % 64) (word-lt m.words (start / 64) s.wide)
            (omega arith) some_bit in
        let at = first_bit (isolate (from_bit (word m (start / 64)) (start % 64))) in
        (
          start / 64 * 64 + at,
          ground (arith, or_low 6 (start / 64) at hit.1),
          in_word m start at hit,
        )
    | no nothing ↦
        let (r, e, f) = find_loop_lem fuel m ((start / 64 + 1) * 64) s (omega arith) in
        (r, ground (arith, e), skip_word m start r (omega arith) more f)
  ]
]

-- On 64-bit words that cover the size, findSet ends within one round for each word and one more;
-- it returns at least the smaller of start and size, no bit below the size from start to the
-- result is set, and the result is a set bit unless it is the size.
pub find_set-Finds :
    (m : BitMask) (start : ℕ) → IsStored m → (r : ℕ) × (find_set m start ≡ some r) × Finds m start r
unfolding find_set
find_set-Finds m start s = find_loop_lem (length m.words) m start s (omega (arith, s.enough))

-- No bit is set at the size or past it.
abbrev pub IsTrimmed : BitMask → Type 0
IsTrimmed m = (j : ℕ) → m.size ≤ j → get m j ≡ false

-- On 64-bit words that cover the size, with no bit set at the size or past it, findSet returns the
-- first set bit from start on, or the size if there is none.
pub find_set_first :
    (m : BitMask) (start : ℕ)
    → IsStored m
    → IsTrimmed m
    → (r : ℕ) × (find_set m start ≡ some r)
      × (min start m.size ≤ r)
      × (r ≤ m.size)
      × ((j : ℕ) → start ≤ j → j < r → get m j ≡ false)
      × (r < m.size → get m r ≡ true)
find_set_first m start s t =
    let (r, e, f) = find_set-Finds m start s in
    let bound : r ≤ m.size = elim (dec_lt m.size r) [
      | yes past ↦ ground (arith, f.is_set (omega arith), t r (omega arith))
      | no near ↦ omega arith
    ] in
    (
      r,
      e,
      f.forward,
      bound,
      λ j lo hi. f.none_before j lo hi (omega (arith, bound)),
      λ p. f.is_set (omega arith),
    )

first_unique :
    (w b r q : ℕ)
    → IsFirst w b r
    → b ≤ q
    → bit_at w q ≡ 1
    → ((i : ℕ) → b ≤ i → i < q → bit_at w i ≡ 0)
    → r ≡ q
first_unique w b r q (lo, hi, one, below) h one' below' = elim (dec_lt r q) [
  | yes p ↦ absurd (omega (arith, below' r lo p))
  | no p ↦ elim (dec_lt q r) [ yes p' ↦ absurd (omega (arith, below q h p')) | no p' ↦ omega arith ]
]

-- The digit of a bit that is known.
digit_of :
    (m : BitMask) (j : ℕ) (v : Bool)
    → get m j ≡ v
    → bit_at (word m (j / 64)) (j % 64) ≡ (if v then 1 else 0)
digit_of m j v e = ground (arith, e, get_digit m j, bit_at-lt (word m (j / 64)) (j % 64))

digit_in_word :
    (m : BitMask) (start i : ℕ)
    → i < 64
    → get m (start / 64 * 64 + i) ≡ false
    → bit_at (word m (start / 64)) i ≡ 0
digit_in_word m start i h e =
    let q : (start / 64 * 64 + i) / 64 ≡ start / 64 = omega arith in
    let r : (start / 64 * 64 + i) % 64 ≡ i = omega arith in
    rw (q, r) at (digit_of m (start / 64 * 64 + i) false e)

from_bit_pos : (w b i : ℕ) → b < 64 → i < 64 → b ≤ i → bit_at w i ≡ 1 → 0 < from_bit w b
from_bit_pos w b i hb hi le one = elim (dec_lt 0 (from_bit w b)) [
  | yes p ↦ p
  | no p ↦
      let e : from_bit w b ≡ 0 = omega arith in
      absurd (omega (arith, one, scan_none w b hb e i le hi))
]

-- On 64-bit words that cover the size, where the next set bit from a start below the size lies
-- past the size in the same word, findSet returns that bit, which is more than the size.
pub find_set-past_size :
    (m : BitMask) (start j : ℕ)
    → IsStored m
    → start < m.size
    → m.size < j
    → j / 64 ≡ start / 64
    → get m j ≡ true
    → ((i : ℕ) → start ≤ i → i < j → get m i ≡ false)
    → find_set m start ≡ some j
unfolding find_set find_loop
find_set-past_size m start j s h p same one clear =
    let w = word m (start / 64) in
    let one' : bit_at w (j % 64) ≡ 1 = rw same at (digit_of m j true one) in
    let b = start % 64 in
    let masked : 0 < from_bit w b =
      from_bit_pos w b (j % 64) (omega arith) (omega arith) (omega arith) one' in
    let hit = scan_some w b (word-lt m.words (start / 64) s.wide) (omega arith) masked in
    let below : (i : ℕ) → b ≤ i → i < j % 64 → bit_at w i ≡ 0 = λ i lo hi.
      digit_in_word m start i (omega arith)
        (clear (start / 64 * 64 + i) (omega arith) (omega arith)) in
    let at : first_bit (isolate (from_bit w b)) ≡ j % 64 =
      first_unique w b _ (j % 64) hit (omega arith) one' below in
    ground (arith, or_low 6 (start / 64) (j % 64) (omega arith), at)
