-- ===== src/TypeDesc/Codes.antt =====
-- src/pvxs/data.h: the codes that stand for a description of one node.
use pvxs.Prelude.{ℕ, ◌<◌, ◌≡◌, refl, Bool, true, not, ◌&&◌, ◌==◌, arith, if◌then◌else◌}
use pvxs.Prelude.Bytes.{agree_below, agree_below→eq}
use pvxs.Wire.Header.{has}
use pvxs.TypeDesc.Code.{null_code, scalar_of, is_simple, is_compound, is_compound_array}
use pvxs.TypeDesc.Bytes.{is_leaf}

-- None of the codes that the reader treats apart.
abbrev pub is_ordinary : ℕ → Bool
is_ordinary c =
    not (c == null_code)
    && not (c == 0xfd)
    && not (c == 0xfe)
    && not (has c 0x10)
    && not (is_compound_array c)
    && not (is_compound c)
    && is_simple (scalar_of c)

abbrev fault_at : ℕ → ℕ
fault_at c = if is_leaf c then (if is_ordinary c then 0 else 1) else 0

no_fault_at : (c : ℕ) → c < 256 → fault_at c ≡ 0
unfolding agree_below
no_fault_at = agree_below→eq fault_at (λ c. 0) 256 refl

pub is_leaf-is_ordinary : (c : ℕ) → c < 256 → is_leaf c ≡ true → is_ordinary c ≡ true
is_leaf-is_ordinary c lt leaf =
    let e : (if is_ordinary c then 0 else 1) ≡ 0 = rw leaf at (no_fault_at c lt) in
    ground (arith, e)
