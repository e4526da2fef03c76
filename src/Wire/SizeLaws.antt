-- ===== src/Wire/SizeLaws.antt =====
-- What `Size` and `Selector` write, and that they are read back.
use pvxs.Prelude.Int.{ℤ, pos, negsuc}
use pvxs.Prelude.{
  ℕ, ◌≤◌, ◌≡◌, inl, inr, Bool, true, List, [], ◌∷◌, ◌++◌, arith, ltb, length, if◌then◌else◌,
  Bool-cases, le→leb,
}
use pvxs.Wire.Buffer.{Out, fixed_in}
use pvxs.Wire.Laws.{Fits, Writes, Ensured, ensure-Ensured, copy-Writes, Writes-trans, Writes-Fits}
use pvxs.Wire.Scalar.{wire_bytes, to_wire, host_be}
use pvxs.Wire.ScalarLaws.{to_wire-Writes, from_wire-wire_bytes, length-wire_bytes}
use pvxs.Wire.Size.{push, to_wire_size, from_wire_size, to_wire_selector, from_wire_selector}

-- The bytes of a number that is a size or an index.
abbrev pub size_bytes : Bool → ℕ → List ℕ
size_bytes be n = if ltb n 254 then n ∷ [] else 254 ∷ wire_bytes be 4 n

-- One byte and then four, after room for the first was ensured.
push-Writes :
    {b c : Out} (n : ℕ)
    → Ensured b c 1
    → Fits b (length (254 ∷ wire_bytes b.be 4 n))
    → Writes b (to_wire host_be 4 (push c 254) n) (254 ∷ wire_bytes b.be 4 n)
push-Writes {b} {c} n e f =
    let first : Writes b (push c 254) (254 ∷ []) = copy-Writes (254 ∷ []) e in
    let fits : Fits (push c 254) 4 = Writes-Fits 4 first (rw (length-wire_bytes b.be 4 n) at f) in
    Writes-trans first (to_wire-Writes host_be 4 (push c 254) b.be n e.is_good e.same_order fits)

pub to_wire_size-Writes :
    (b : Out) (n : ℕ)
    → n ≤ 0xffff_ffff
    → b.good ≡ true
    → Fits b (length (size_bytes b.be n))
    → Writes b (to_wire_size b n) (size_bytes b.be n)
unfolding to_wire_size
to_wire_size-Writes b n h g f = elim (Bool-cases (ltb n 254)) [
  | inl short ↦
      let (enough, e) = ensure-Ensured b 1 g (rw short at f) in
      rw (short, enough) (copy-Writes (n ∷ []) e)
  | inr long ↦
      let fits : Fits b (length (254 ∷ wire_bytes b.be 4 n)) = rw long at f in
      let (enough, e) = ensure-Ensured b 1 g (ground (arith, fits)) in
      rw (long, enough, le→leb n 0xffff_ffff h) (push-Writes n e fits)
]

pub from_wire_size-size_bytes :
    (be allow_null : Bool) (old n : ℕ) (rest : List ℕ)
    → n ≤ 0xffff_ffff
    → from_wire_size allow_null old (fixed_in be (size_bytes be n ++ rest)) ≡ (n, fixed_in be rest)
unfolding from_wire_size
from_wire_size-size_bytes be allow_null old n rest h = elim (Bool-cases (ltb n 254)) [
  | inl short ↦ rw (short, short) (ground arith)
  | inr long ↦ rw long (ground (arith, from_wire-wire_bytes host_be be 4 0 n rest (omega arith)))
]

-- -1 is the one negative value that is meant; the writer takes any other for it.
abbrev pub selector_bytes : Bool → ℤ → List ℕ
selector_bytes be (pos n) = size_bytes be n
selector_bytes be (negsuc n) = 255 ∷ []

abbrev pub IsSelector : ℤ → Type 0
IsSelector (pos n) = n ≤ 0xffff_ffff
IsSelector (negsuc n) = n ≡ 0

pub to_wire_selector-Writes :
    (b : Out) (sel : ℤ)
    → IsSelector sel
    → b.good ≡ true
    → Fits b (length (selector_bytes b.be sel))
    → Writes b (to_wire_selector b sel) (selector_bytes b.be sel)
unfolding to_wire_selector to_wire_size
to_wire_selector-Writes b (pos n) h g f = to_wire_size-Writes b n h g f
to_wire_selector-Writes b (negsuc n) h g f =
    let (enough, e) = ensure-Ensured b 1 g f in rw enough (copy-Writes (255 ∷ []) e)

pub from_wire_selector-selector_bytes :
    (be : Bool) (old sel : ℤ) (rest : List ℕ)
    → IsSelector sel
    → from_wire_selector old (fixed_in be (selector_bytes be sel ++ rest)) ≡ (sel, fixed_in be rest)
unfolding from_wire_selector
from_wire_selector-selector_bytes be old (pos n) rest h = elim (Bool-cases (ltb n 254)) [
  | inl short ↦ rw (short, short) (ground arith)
  | inr long ↦ rw long (ground (arith, from_wire-wire_bytes host_be be 4 0 n rest (omega arith)))
]
from_wire_selector-selector_bytes be old (negsuc n) rest h = rw h (ground arith)
