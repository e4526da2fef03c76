-- ===== src/TypeDesc/Tests.antt =====
-- Runs of the type descriptions.
use pvxs.Prelude.{
  none, some, zero, suc, ℕ, ◌≡◌, refl, inl, inr, true, false, List, [], ◌∷◌, ◌++◌, arith,
}
use pvxs.Wire.Buffer.{fixed_in, vector_out}
use pvxs.TypeDesc.Tree.{
  Member, member, no_members, and_member, set_parent, build_tree, build_node, add_child, type_def,
}
use pvxs.TypeDesc.Decode.{TypeStore, decoded, from_wire_type}
use pvxs.TypeDesc.Bytes.{type_bytes, IsType, depth}
use pvxs.TypeDesc.Encode.{to_wire_type}
use pvxs.TypeDesc.Copy.{copy_tree}
use pvxs.TypeDesc.Limit.{from_wire_type-too_deep}
use pvxs.TypeDesc.Copying.{copy_tree-build_tree}
use pvxs.TypeDesc.Exchange.{
  from_wire_type-to_wire_type, update_bytes, fetch_bytes, fetch-update_cache,
}

abbrev leaf : ℕ → List ℕ → Member
leaf code name = member code name [] no_members

-- struct "S" { double v; struct a { int32_t s[]; }; struct "T" b[] { string m; }; }
abbrev sample : Member
sample = member 0x80 [] (b'S' ∷ []) (
    and_member (leaf 0x43 (b'v' ∷ [])) (
      and_member (member 0x80 (b'a' ∷ []) [] (and_member (leaf 0x2a (b's' ∷ [])) no_members)) (
        and_member
          (member 0x88 (b'b' ∷ []) (b'T' ∷ []) (and_member (leaf 0x60 (b'm' ∷ [])) no_members))
          no_members)))

sample-IsType : IsType sample
unfolding IsType
sample-IsType = (
  omega arith,
  omega arith,
  omega arith,
  inr (inl refl),
  (
    (omega arith, omega arith, omega arith, inl (omega arith, refl, refl, refl), tt),
    (
      (
        omega arith,
        omega arith,
        omega arith,
        inr (inl refl),
        ((omega arith, omega arith, omega arith, inl (omega arith, refl, refl, refl), tt), tt),
      ),
      (
        (
          omega arith,
          omega arith,
          omega arith,
          inr (inr (inr (inl refl))),
          ((omega arith, omega arith, omega arith, inl (omega arith, refl, refl, refl), tt), tt),
        ),
        tt,
      ),
    ),
  ),
)

sample-made : type_def sample ≡ some (build_tree sample)
unfolding type_def build_node add_child
sample-made = refl

-- struct { double v; double v; } ends the program.
twice_aborts :
    type_def (
      member 0x80 [] []
        (and_member (leaf 0x43 (b'v' ∷ [])) (and_member (leaf 0x43 (b'v' ∷ [])) no_members)))
    ≡ none
unfolding type_def build_node add_child
twice_aborts = refl

abbrev sample_bytes : List ℕ
sample_bytes = (to_wire_type 4 (vector_out true) (build_tree sample)).written

from_wire_type-to_wire_type_example :
    ((to_wire_type 4 (vector_out true) (build_tree sample)).good ≡ true)
    × ((cache : TypeStore) (rest : List ℕ)
        → from_wire_type cache (fixed_in true (sample_bytes ++ rest))
          ≡ decoded (fixed_in true rest) (build_tree sample) cache)
unfolding depth
from_wire_type-to_wire_type_example =
    from_wire_type-to_wire_type true sample 4 (build_tree sample) sample-made sample-IsType
      (omega arith) (omega arith)

fetch-update_cache_example :
    let r = from_wire_type [] (fixed_in false (update_bytes false 5 sample ++ (1 ∷ []))) in
    (r.buf ≡ fixed_in false (1 ∷ []))
    × (r.descs ≡ set_parent 0 (build_tree sample))
    × (from_wire_type r.cache (fixed_in false (fetch_bytes false 5 ++ (2 ∷ [])))
        ≡ decoded (fixed_in false (2 ∷ [])) (build_tree sample) r.cache)
unfolding depth
fetch-update_cache_example =
    fetch-update_cache false 5 sample (build_tree sample) [] (1 ∷ []) (2 ∷ []) sample-made
      sample-IsType (omega arith) (omega arith) refl

copy_tree-build_tree_example : copy_tree 4 [] (build_tree sample) ≡ sample
unfolding depth
copy_tree-build_tree_example =
    copy_tree-build_tree sample 4 (build_tree sample) sample-made sample-IsType (omega arith)

-- A Struct in a Struct, n times.
abbrev nested : ℕ → Member
nested zero = leaf 0x22 (b'x' ∷ [])
nested (suc n) = member 0x80 (b's' ∷ []) [] (and_member (nested n) no_members)

nested-IsType : (n : ℕ) → IsType (nested n)
unfolding IsType
nested-IsType zero =
    (omega arith, omega arith, omega arith, inl (omega arith, refl, refl, refl), tt)
nested-IsType (suc n) =
    (omega arith, omega arith, omega arith, inr (inl refl), (nested-IsType n, tt))

from_wire_type-too_deep_example :
    (from_wire_type [] (fixed_in true (type_bytes true (nested 21) ++ []))).buf.good ≡ false
unfolding depth
from_wire_type-too_deep_example =
    from_wire_type-too_deep true (nested 21) [] [] (nested-IsType 21) (omega arith)
