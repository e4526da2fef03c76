-- ===== src/TypeDesc/Tree.antt =====
-- src/dataimpl.h and src/type.cpp: FieldDesc, Member, build_tree and copy_tree.
use pvxs.Prelude.{
  ℕ, suc, ◌+◌, Bool, true, false, ◌&&◌, List, [], ◌∷◌, ◌++◌, ◌==◌, length, if◌then◌else◌, Option,
  none, some,
}
use pvxs.TypeDesc.Code.{struct_code, scalar_of, is_compound_array}

abbrev pub Name : Type 0
Name = List ℕ

-- `mlookup` and `miter`. A std::map is a list of its pairs, in any order.
abbrev pub Index : Type 0
Index = List (Name × ℕ)

abbrev pub same_name : Name → Name → Bool
same_name [] [] = true
same_name [] (y ∷ ys) = false
same_name (x ∷ xs) [] = false
same_name (x ∷ xs) (y ∷ ys) = x == y && same_name xs ys

-- `map[key] = v`
abbrev pub store : Index → Name → ℕ → Index
store [] key v = (key, v) ∷ []
store (p ∷ ps) key v = if same_name p.0 key then (key, v) ∷ ps else p ∷ store ps key v

pub record Head : Type 0 where
  pub code : ℕ
  pub id : Name
  pub mlookup : Index
  pub miter : Index
  pub parent_index : ℕ

-- A FieldDesc is its own fields and `members`; a vector of them is a Descs.
mutual
  pub data FieldDesc : Type 0 where
    field_desc : Head → Descs → FieldDesc

  pub data Descs : Type 0 where
    no_descs : Descs
    and_desc : FieldDesc → Descs → Descs

abbrev pub new_head : ℕ → Head
new_head code = record { code = code; id = []; mlookup = []; miter = []; parent_index = 0 }

abbrev pub append : Descs → Descs → Descs
append no_descs ys = ys
append (and_desc x xs) ys = and_desc x (append xs ys)

abbrev pub count : Descs → ℕ
count no_descs = 0
count (and_desc x xs) = suc (count xs)

abbrev pub single : Head → Descs → Descs
single h members = and_desc (field_desc h members) no_descs

-- `vec[i].parent_index = n` on the first node of a child.
abbrev pub set_parent : ℕ → Descs → Descs
set_parent n no_descs = no_descs
set_parent n (and_desc (field_desc h ms) xs) =
    and_desc (field_desc (record h { parent_index = n }) ms) xs

-- `FieldDesc::size`
abbrev pub size : FieldDesc → ℕ
size (field_desc h no_descs) = suc (length h.mlookup)
size (field_desc h (and_desc x xs)) = 1

abbrev pub dot : ℕ
dot = 0x2e

-- Names of a sub-structure, as names of its parent.
abbrev pub store_all : Index → Name → ℕ → Index → Index
store_all index prefix offset [] = index
store_all index prefix offset (p ∷ ps) =
    store_all (store index (prefix ++ (dot ∷ p.0)) (offset + p.1)) prefix offset ps

abbrev pub propagate : Index → Name → ℕ → Descs → Index
propagate index prefix offset no_descs = index
propagate index prefix offset (and_desc (field_desc h ms) xs) =
    if h.code == struct_code then store_all index prefix offset h.mlookup else index

-- A child at an offset is entered in its parent, a Struct or not.
unfoldable pub add_child : Bool → Head → Name → ℕ → Descs → Head
add_child in_struct h name offset child =
    let lookup = store h.mlookup name offset in
    record h {
      miter = h.miter ++ ((name, offset) ∷ []);
      mlookup = if in_struct then propagate lookup name offset child else lookup;
    }

-- Where the next child goes: behind the parent itself in a Struct, and in `members` otherwise.
abbrev pub offset_of : Bool → Descs → ℕ
offset_of in_struct done = (if in_struct then 1 else 0) + count done

abbrev pub placed : Bool → ℕ → Descs → Descs
placed in_struct offset child = if in_struct then set_parent offset child else child

-- The node, and its children behind it or in it.
abbrev pub assemble : Bool → Head → Descs → Descs
assemble in_struct h kids =
    if in_struct then and_desc (field_desc h no_descs) kids else single h kids

mutual
  pub data Member : Type 0 where
    member : ℕ → Name → Name → Members → Member

  pub data Members : Type 0 where
    no_members : Members
    and_member : Member → Members → Members

abbrev pub name_of : Member → Name
name_of (member code name id children) = name

-- The code of the elements of an array of a Struct or a Union, and the array's own node.
abbrev pub element_code : ℕ → ℕ
element_code code = if is_compound_array code then scalar_of code else code

abbrev pub in_array : ℕ → Descs → Descs
in_array code node = if is_compound_array code then single (new_head code) node else node

-- The nodes that `build_tree` appends, and its loop over the children. Its assertion is in
-- `holds_assert`, and `type_def` takes it into account.
unfoldable mutual
  unfolding add_child

  pub build_tree : Member → Descs
  build_tree (member code name id children) =
      let c = element_code code in
      let r =
        build_children (c == struct_code) (record (new_head c) { id = id }) no_descs children in
      in_array code (assemble (c == struct_code) r.0 r.1)

  pub build_children : Bool → Head → Descs → Members → Head × Descs
  build_children in_struct h done no_members = (h, done)
  build_children in_struct h done (and_member m ms) =
      let child = build_tree m in
      let offset = offset_of in_struct done in
      build_children in_struct (add_child in_struct h (name_of m) offset child)
        (append done (placed in_struct offset child)) ms

-- The node of a Struct, a Union or a simple type.
unfoldable pub build_node : ℕ → Name → Members → Descs
unfolding build_tree
build_node code id children =
    let r =
      build_children (code == struct_code) (record (new_head code) { id = id }) no_descs children in
    assemble (code == struct_code) r.0 r.1

abbrev pub first_size : Descs → ℕ
first_size no_descs = 0
first_size (and_desc x xs) = size x

-- Whether the assertion at the end of `build_tree` holds, in the call for a Member and in those for
-- what is in it: as many nodes are appended as the size of the first of them, where no two of the
-- names in its lookup are the same.
unfoldable mutual
  unfolding build_node

  pub holds_assert : Member → Bool
  holds_assert (member code name id children) =
      let node = build_node (element_code code) id children in
      holds_asserts children && count node == first_size node

  pub holds_asserts : Members → Bool
  holds_asserts no_members = true
  holds_asserts (and_member m ms) = holds_assert m && holds_asserts ms

-- `TypeDef::TypeDef(std::shared_ptr<const Member>&&)`: the nodes, or `none` where an assertion of
-- `build_tree` ends the program.
unfoldable pub type_def : Member → Option Descs
unfolding build_tree holds_assert
type_def m = if holds_assert m then some (build_tree m) else none
