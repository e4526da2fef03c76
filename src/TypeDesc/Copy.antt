-- ===== src/TypeDesc/Copy.antt =====
-- src/type.cpp: copy_tree, the Member that a FieldDesc* describes.
use pvxs.Prelude.{ℕ, zero, suc, [], ◌∷◌, ◌==◌, if◌then◌else◌}
use pvxs.TypeDesc.Code.{struct_code, array_of, is_compound, is_compound_array}
use pvxs.TypeDesc.Tree.{
  Name, Index, Head, field_desc, Descs, no_descs, and_desc, Member, member, Members, no_members,
  and_member,
}
use pvxs.TypeDesc.Encode.{skip}

-- `node.code = node.code.arrayOf()`
abbrev pub as_array : Member → Member
as_array (member code name id children) = member (array_of code) name id children

-- The loop over `miter`.
unfoldable pub copy_fields : (Name → Descs → Member) → Descs → Index → Members
copy_fields rec base [] = no_members
copy_fields rec base (p ∷ ps) = and_member (rec p.0 (skip p.1 base)) (copy_fields rec base ps)

unfoldable pub copy_node : (Name → Descs → Member) → Name → Head → Descs → Descs → Member
unfolding copy_fields
copy_node rec name h members cur =
    if is_compound h.code
    then member h.code name h.id
        (copy_fields rec (if h.code == struct_code then cur else members) h.miter)
    else (if is_compound_array h.code
        then as_array (rec name members)
        else member h.code name h.id no_members)

-- The Member of that name, on fuel for the levels; a description has a node at least.
unfoldable pub copy_tree : ℕ → Name → Descs → Member
unfolding copy_node
copy_tree zero name cur = member 0 name [] no_members
copy_tree (suc fuel) name no_descs = member 0 name [] no_members
copy_tree (suc fuel) name (and_desc (field_desc h members) xs) =
    copy_node (copy_tree fuel) name h members (and_desc (field_desc h members) xs)
