-- ===== src/BitMask/Tests.antt =====
-- Runs from testbitmask.cpp.
use pvxs.Prelude.{
  ℕ, zero, suc, ◌≡◌, refl, false, [], ◌∷◌, some, ◌≤◌, ◌<◌, ◌/◌, ◌+◌, ◌%◌, ltb, if◌then◌else◌,
  length, arith,
}
use pvxs.BitMask.Search.{IsStored, IsTrimmed, Finds, find_set-Finds}
use pvxs.BitMask.Resize.{resize_lem}
use pvxs.BitMask.Scan.{get_digit}
use pvxs.Prelude.Bits.{bit_at, bit_at_high, bit_at-zero}
use pvxs.BitMask.{word, BitMask, of_bits, resize, resize_words, get, assign, find_set}

abbrev m_1_4 : BitMask
m_1_4 = record { words = 0x8000_0000_0000_0012 ∷ 1 ∷ []; size = 70 }

first_of_mask : find_set m_1_4 0 ≡ some 1
unfolding find_set
first_of_mask = refl

next_of_mask : find_set m_1_4 5 ≡ some 63
unfolding find_set
next_of_mask = refl

end_of_mask : find_set m_1_4 65 ≡ some 70
unfolding find_set
end_of_mask = refl

made : of_bits (1 ∷ 4 ∷ 64 ∷ []) 0 ≡ record { words = 0x12 ∷ 1 ∷ []; size = 65 }
unfolding of_bits assign resize resize_words
made = refl

m_1_4-IsStored : IsStored m_1_4
m_1_4-IsStored = record { wide = (omega arith, (omega arith, tt)); enough = omega arith }

find_set-Finds_example : (r : ℕ) × (find_set m_1_4 5 ≡ some r) × Finds m_1_4 5 r
find_set-Finds_example = find_set-Finds m_1_4 5 m_1_4-IsStored

abbrev one_bit : BitMask
one_bit = record { words = 8 ∷ []; size = 4 }

one_bit-IsStored : IsStored one_bit
one_bit-IsStored = record { wide = (omega arith, tt); enough = omega arith }

one_word : (n j : ℕ) → 4 ≤ j → j / 64 ≡ n → bit_at (word one_bit n) (j % 64) ≡ 0
one_word zero j h e = bit_at_high 4 8 (j % 64) (omega arith) (omega arith)
one_word (suc n) j h e = bit_at-zero (j % 64)

one_bit-IsTrimmed : IsTrimmed one_bit
one_bit-IsTrimmed j h = rw (get_digit one_bit j, one_word (j / 64) j h refl) refl

-- The bit 7 of a mask that was cut to 6 bits.
abbrev cut : BitMask
cut = record { words = 0x82 ∷ []; size = 6 }

cut-IsStored : IsStored cut
cut-IsStored = record { wide = (omega arith, tt); enough = omega arith }

cut_clear : (i : ℕ) → 3 ≤ i → i < 7 → get cut i ≡ false
unfolding get
cut_clear zero lo hi = absurd (omega arith)
cut_clear (suc zero) lo hi = absurd (omega arith)
cut_clear (suc (suc zero)) lo hi = absurd (omega arith)
cut_clear (suc (suc (suc zero))) lo hi = refl
cut_clear (suc (suc (suc (suc zero)))) lo hi = refl
cut_clear (suc (suc (suc (suc (suc zero))))) lo hi = refl
cut_clear (suc (suc (suc (suc (suc (suc zero)))))) lo hi = refl
cut_clear (suc (suc (suc (suc (suc (suc (suc i))))))) lo hi = absurd (omega arith)

resize_lem_example :
    IsStored (resize m_1_4 40)
    × ((resize m_1_4 40).size ≡ 40)
    × (length (resize m_1_4 40).words ≡ (40 + 63) / 64)
    × ((j : ℕ)
        → get (resize m_1_4 40) j ≡ (if ltb (j / 64) ((40 + 63) / 64) then get m_1_4 j else false))
resize_lem_example = resize_lem m_1_4 40 (omega arith, (omega arith, tt)) (omega arith)
