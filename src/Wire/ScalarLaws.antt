-- ===== src/Wire/ScalarLaws.antt =====
-- Scalars on the wire: the bytes written, and the value read back from them.
use mathlib.Core.List.{reverse-reverse}
use native.Mathlib.Nat.{div-add-mod}
use pvxs.Prelude.{
  ℕ, zero, suc, ◌/◌, ◌^◌, ◌<◌, ◌≡◌, refl, ap, subst, ◌∙◌, Bool, true, false, xor, List, ◌++◌, arith,
  length, length-append, length-reverse, take-append, drop-append,
}
use pvxs.Wire.Buffer.{Out, fixed_in}
use pvxs.Wire.Laws.{Fits, Writes, put_bytes-Writes}
use pvxs.Wire.Scalar.{
  le_bytes, le_value, host_bytes, host_value, swap_if, to_wire, from_wire, wire_bytes,
}

length-le_bytes : (n v : ℕ) → length (le_bytes n v) ≡ n
unfolding le_bytes
length-le_bytes zero v = refl
length-le_bytes (suc n) v = ap suc (length-le_bytes n (v / 256))

pub length-wire_bytes : (be : Bool) (n v : ℕ) → length (wire_bytes be n v) ≡ n
length-wire_bytes true n v = length-reverse (le_bytes n v) ∙ length-le_bytes n v
length-wire_bytes false n v = length-le_bytes n v

le_value-le_bytes : (n v : ℕ) → v < 256 ^ n → le_value (le_bytes n v) ≡ v
unfolding le_value le_bytes
le_value-le_bytes zero v h = omega arith
le_value-le_bytes (suc n) v h =
    omega (arith, le_value-le_bytes n (v / 256) (omega arith), div-add-mod v 256)

abbrev pub IsByte : ℕ → Type 0
IsByte b = b < 256

-- The order on the wire does not depend on the order of the host.
swap-host_bytes :
    (be h : Bool) (n v : ℕ) → swap_if (xor be h) (host_bytes h n v) ≡ wire_bytes be n v
unfolding xor
swap-host_bytes true true n v = refl
swap-host_bytes true false n v = refl
swap-host_bytes false true n v = reverse-reverse (le_bytes n v)
swap-host_bytes false false n v = refl

host_value-swap :
    (be h : Bool) (n v : ℕ)
    → v < 256 ^ n
    → host_value h (swap_if (xor be h) (wire_bytes be n v)) ≡ v
unfolding xor
host_value-swap true true n v lt = rw reverse-reverse (le_value-le_bytes n v lt)
host_value-swap true false n v lt = rw reverse-reverse (le_value-le_bytes n v lt)
host_value-swap false true n v lt = rw reverse-reverse (le_value-le_bytes n v lt)
host_value-swap false false n v lt = le_value-le_bytes n v lt

pub to_wire-Writes :
    (h : Bool) (n : ℕ) (b : Out) (be : Bool) (v : ℕ)
    → b.good ≡ true
    → b.be ≡ be
    → Fits b n
    → Writes b (to_wire h n b v) (wire_bytes be n v)
unfolding to_wire
to_wire-Writes h n b be v g o f =
    subst (λ x. Writes b (to_wire h n b v) (wire_bytes x n v)) o
      (rw (swap-host_bytes b.be h n v)
        (put_bytes-Writes b (wire_bytes b.be n v) g (rw (length-wire_bytes b.be n v) f)))

pub from_wire-wire_bytes :
    (h be : Bool) (n old v : ℕ) (rest : List ℕ)
    → v < 256 ^ n
    → from_wire h n old (fixed_in be (wire_bytes be n v ++ rest)) ≡ (v, fixed_in be rest)
unfolding from_wire
from_wire-wire_bytes h be n old v rest lt =
    let ws : List ℕ = wire_bytes be n v in
    let len : length ws ≡ n = length-wire_bytes be n v in
    ground (
      arith,
      len,
      length-append ws rest,
      take-append n ws rest len,
      drop-append n ws rest len,
      host_value-swap be h n v lt,
    )
