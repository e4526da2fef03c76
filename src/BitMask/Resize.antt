-- ===== src/BitMask/Resize.antt =====
-- `resize`: how many words are kept, and which bits.
use Prim.Native.Nat.{bit_or}
use pvxs.Prelude.Bits.{or_step, or_nothing, bit_at-zero}
use pvxs.Prelude.{
  ℕ, zero, suc, ◌+◌, ◌-◌, ◌*◌, ◌^◌, ◌/◌, ◌%◌, ◌<◌, ◌≡◌, refl, ap, ◌∙◌, false, List, [], ◌∷◌, arith,
  get_or, All, length, ltb, if◌then◌else◌,
}
use pvxs.BitMask.{BitMask, get, store_bits, resize_words, resize}
use pvxs.BitMask.Scan.{get_digit}
use pvxs.BitMask.Search.{IsStored}

or_63 : (x : ℕ) → bit_or x 63 ≡ x / 64 * 64 + 63
or_63 x = omega (
  arith,
  or_step x 63,
  or_step (x / 2) 31,
  or_step (x / 2 / 2) 15,
  or_step (x / 2 / 2 / 2) 7,
  or_step (x / 2 / 2 / 2 / 2) 3,
  or_step (x / 2 / 2 / 2 / 2 / 2) 1,
  or_nothing (x / 2 / 2 / 2 / 2 / 2 / 2) (x / 2 / 2 / 2 / 2 / 2 / 2) (omega arith),
)

store_bits_lem : (bits : ℕ) → bits < 2 ^ 16 → store_bits bits / 64 ≡ (bits + 63) / 64
unfolding store_bits
store_bits_lem zero h = refl
store_bits_lem (suc n) h =
    let e : (suc n + (2 ^ 64 - 1)) % 2 ^ 64 ≡ n = omega arith in rw (e, or_63 n) (omega arith)

length-resize_words : (n : ℕ) (ws : List ℕ) → length (resize_words n ws) ≡ n
unfolding resize_words
length-resize_words zero ws = refl
length-resize_words (suc n) [] = ap suc (length-resize_words n [])
length-resize_words (suc n) (w ∷ ws) = ap suc (length-resize_words n ws)

resize_words-wide :
    (n : ℕ) (ws : List ℕ) → All (λ w. w < 2 ^ 64) ws → All (λ w. w < 2 ^ 64) (resize_words n ws)
unfolding resize_words
resize_words-wide zero ws h = tt
resize_words-wide (suc n) [] h = (omega arith, resize_words-wide n [] tt)
resize_words-wide (suc n) (w ∷ ws) h = (h.0, resize_words-wide n ws h.1)

get_or-resize_words :
    (n : ℕ) (ws : List ℕ) (i : ℕ)
    → get_or (resize_words n ws) i 0 ≡ (if ltb i n then get_or ws i 0 else 0)
unfolding resize_words
get_or-resize_words zero ws i = ground arith
get_or-resize_words (suc n) [] zero = ground arith
get_or-resize_words (suc n) [] (suc i) = get_or-resize_words n [] i ∙ ground arith
get_or-resize_words (suc n) (w ∷ ws) zero = ground arith
get_or-resize_words (suc n) (w ∷ ws) (suc i) = get_or-resize_words n ws i ∙ ground arith

-- On words of 64 bits and fewer than 2^16 bits, resize keeps the storage invariant, gives the size
-- asked for in the fewest words, keeps every bit of the words it keeps, and clears the rest.
pub resize_lem :
    (m : BitMask) (bits : ℕ)
    → All (λ w. w < 2 ^ 64) m.words
    → bits < 2 ^ 16
    → IsStored (resize m bits)
      × ((resize m bits).size ≡ bits)
      × (length (resize m bits).words ≡ (bits + 63) / 64)
      × ((j : ℕ)
          → get (resize m bits) j ≡ (if ltb (j / 64) ((bits + 63) / 64) then get m j else false))
unfolding resize
resize_lem m bits wide h =
    let n : store_bits bits / 64 ≡ (bits + 63) / 64 = store_bits_lem bits h in
    let len : length (resize m bits).words ≡ (bits + 63) / 64 =
      length-resize_words (store_bits bits / 64) m.words ∙ n in
    (
      record {
        wide = resize_words-wide (store_bits bits / 64) m.words wide;
        enough = omega (arith, len);
      },
      omega arith,
      len,
      λ j.
          rw (get_digit (resize m bits) j, get_digit m j)
            (ground (
              arith,
              n,
              get_or-resize_words (store_bits bits / 64) m.words (j / 64),
              bit_at-zero (j % 64),
            )),
    )
