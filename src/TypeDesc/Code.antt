-- ===== src/TypeDesc/Code.antt =====
-- src/pvxs/data.h and src/type.cpp: TypeCode, a byte.
use Prim.Native.Nat.{bit_and, bit_or}
use pvxs.Prelude.{ℕ, Bool, false, not, ◌&&◌, ◌||◌, ◌==◌, if◌then◌else◌}
use pvxs.Wire.Header.{has}

abbrev pub struct_code : ℕ
struct_code = 0x80

abbrev pub union_code : ℕ
union_code = 0x81

abbrev pub struct_a : ℕ
struct_a = 0x88

abbrev pub union_a : ℕ
union_a = 0x89

abbrev pub null_code : ℕ
null_code = 0xff

abbrev pub scalar_of : ℕ → ℕ
scalar_of code = bit_and code 0xf7

abbrev pub array_of : ℕ → ℕ
array_of code = bit_or code 0x08

-- The scalar codes, Bool to Any, that have a description of a single node.
abbrev pub is_simple : ℕ → Bool
is_simple c =
    c == 0x00
    || c == 0x20
    || c == 0x21
    || c == 0x22
    || c == 0x23
    || c == 0x24
    || c == 0x25
    || c == 0x26
    || c == 0x27
    || c == 0x42
    || c == 0x43
    || c == 0x60
    || c == 0x82

-- `TypeCode::valid`
pub valid : ℕ → Bool
valid code =
    if has code 0x10 && not (code == null_code)
    then false
    else (let c = scalar_of code in
        is_simple c || c == union_code || c == struct_code || c == null_code)

-- Struct or Union, and an array of them.
abbrev pub is_compound : ℕ → Bool
is_compound code = code == struct_code || code == union_code

abbrev pub is_compound_array : ℕ → Bool
is_compound_array code = code == struct_a || code == union_a
