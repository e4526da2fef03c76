-- ===== src/TypeDesc/Bytes.antt =====
-- A type as bytes, and the types that have a description.
use pvxs.Prelude.{
  ℕ, suc, ◌+◌, ◌≤◌, ◌<◌, ◌≡◌, ◌⊎◌, Bool, true, ◌&&◌, ◌||◌, ◌==◌, List, [], ◌∷◌, ◌++◌, max,
  if◌then◌else◌,
}
use pvxs.Wire.SizeLaws.{size_bytes}
use pvxs.Wire.TextLaws.{str_bytes, IsShort}
use pvxs.TypeDesc.Code.{
  scalar_of, array_of, is_simple, is_compound, is_compound_array, struct_code, union_code, struct_a,
  union_a,
}
use pvxs.TypeDesc.Tree.{Name, Member, member, Members, no_members, and_member, name_of}

abbrev pub count_members : Members → ℕ
count_members no_members = 0
count_members (and_member m ms) = suc (count_members ms)

-- A simple type, or an array of one.
abbrev pub is_leaf : ℕ → Bool
is_leaf code = is_simple code || (is_simple (scalar_of code) && code == array_of (scalar_of code))

-- The code, once more without the array flag for an array of a Struct or a Union, and for these
-- the id, the number of the children and the children.
abbrev pub compound_bytes : Bool → Name → ℕ → List ℕ → List ℕ
compound_bytes be id n children = str_bytes be id ++ (size_bytes be n ++ children)

abbrev pub after_code : Bool → ℕ → Name → ℕ → List ℕ → List ℕ
after_code be code id n children =
    if is_compound_array code
    then scalar_of code ∷ compound_bytes be id n children
    else (if is_compound code then compound_bytes be id n children else [])

unfoldable mutual
  pub type_bytes : Bool → Member → List ℕ
  type_bytes be (member code name id children) =
      code ∷ after_code be code id (count_members children) (children_bytes be children)

  pub children_bytes : Bool → Members → List ℕ
  children_bytes be no_members = []
  children_bytes be (and_member m ms) =
      str_bytes be (name_of m) ++ (type_bytes be m ++ children_bytes be ms)

-- How deep the reader goes.
unfoldable mutual
  pub depth : Member → ℕ
  depth (member code name id children) =
      (if is_compound_array code then 2 else 1) + depth_children children

  pub depth_children : Members → ℕ
  depth_children no_members = 0
  depth_children (and_member m ms) = max (depth m) (depth_children ms)

-- A code of a simple type or an array of them, with no id and no children; or a Struct, a Union or
-- an array of them.
abbrev pub IsCoded : ℕ → Name → Members → Type 0
IsCoded code id children =
    ((code < 256) × (is_leaf code ≡ true) × (id ≡ []) × (children ≡ no_members))
    ⊎ ((code ≡ struct_code) ⊎ ((code ≡ union_code) ⊎ ((code ≡ struct_a) ⊎ (code ≡ union_a))))

unfoldable mutual
  pub IsType : Member → Type 0
  IsType (member code name id children) =
      IsShort name
      × IsShort id
      × (count_members children ≤ 0xffff_ffff)
      × IsCoded code id children
      × AreTypes children

  pub AreTypes : Members → Type 0
  AreTypes no_members = Unit
  AreTypes (and_member m ms) = IsType m × AreTypes ms
