-- ===== src/PvRequest/Tests.antt =====
-- Requests for fields of a small structure.
use pvxs.Prelude.{ℕ, ◌≡◌, refl, true, false, ◌&&◌, ◌||◌, none, some, [], ◌∷◌, arith}
use pvxs.BitMask.{BitMask, of_bits, get, assign, find_set, resize, resize_words}
use pvxs.TypeDesc.Tree.{Descs, Member, member, no_members, and_member, build_tree}
use pvxs.PvRequest.Mask.{is_struct, request2mask, testmask}
use pvxs.PvRequest.Select.{
  InRange, IsSelection, is_chosen, is_accepted, marks_any, request2mask-selects,
  testmask-request2mask,
}

abbrev field : ℕ → ℕ → Member
field code name = member code (name ∷ []) [] no_members

-- struct { double v; struct { int32_t x; int32_t y; } a; double w; }, of six nodes
abbrev whole : Member
whole = member 0x80 [] [] (
    and_member (field 0x43 b'v') (
      and_member
        (member 0x80 (b'a' ∷ []) []
          (and_member (field 0x22 b'x') (and_member (field 0x22 b'y') no_members)))
        (and_member (field 0x43 b'w') no_members)))

-- struct { struct {} a; }
abbrev asks_a : Member
asks_a = member 0x80 [] [] (and_member (member 0x80 (b'a' ∷ []) [] no_members) no_members)

abbrev type : Descs
type = build_tree whole

abbrev asked : Descs
asked = build_tree asks_a

mask_of_a : request2mask type asked ≡ some (of_bits (0 ∷ 2 ∷ 3 ∷ 4 ∷ []) 6)
unfolding build_tree request2mask of_bits assign find_set resize resize_words
mask_of_a = refl

type-InRange : InRange type
unfolding build_tree
type-InRange = omega arith

request2mask-selects_example :
    (is_accepted type asked ≡ false → request2mask type asked ≡ none)
    × (is_accepted type asked ≡ true
        → (m : BitMask) × (request2mask type asked ≡ some m)
          × IsSelection type (is_chosen type asked) m)
unfolding build_tree
request2mask-selects_example =
    request2mask-selects type asked (omega arith) (omega arith) type-InRange

-- An update of a.y is sent, and one of w is not.
testmask-request2mask_example :
    testmask type
      (false ∷ false ∷ false ∷ false ∷ true ∷ false ∷ [])
      (of_bits (0 ∷ 2 ∷ 3 ∷ 4 ∷ []) 6)
    ≡ (false
        || (is_struct type
            && marks_any type (is_chosen type asked) (false ∷ false ∷ false ∷ true ∷ false ∷ []) 1))
unfolding build_tree
testmask-request2mask_example =
    testmask-request2mask type asked (of_bits (0 ∷ 2 ∷ 3 ∷ 4 ∷ []) 6) 3 false
      (false ∷ false ∷ false ∷ true ∷ false ∷ []) (omega arith) type-InRange mask_of_a (omega arith)
      (omega arith) refl

not_asked :
    testmask type
      (false ∷ false ∷ false ∷ false ∷ false ∷ true ∷ [])
      (of_bits (0 ∷ 2 ∷ 3 ∷ 4 ∷ []) 6)
    ≡ false
unfolding build_tree testmask of_bits get assign resize resize_words
not_asked = refl
