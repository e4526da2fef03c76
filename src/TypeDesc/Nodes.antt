-- ===== src/TypeDesc/Nodes.antt =====
-- src/dataencode.cpp: what `to_wire` writes for one node, and for all of them.
use pvxs.Prelude.{
  ℕ, zero, suc, ◌≤◌, ◌<◌, ◌≡◌, refl, sym, ap, subst, ◌∙◌, ◌⊎◌, inl, inr, Bool, true, false, List,
  [], ◌∷◌, ◌==◌, arith,
}
use pvxs.Wire.Buffer.{Out}
use pvxs.Wire.Laws.{Writes, Writes-trans}
use pvxs.Wire.Scalar.{to_wire_u8}
use pvxs.Wire.TextLaws.{IsShort}
use pvxs.TypeDesc.Code.{
  struct_code, union_code, struct_a, union_a, scalar_of, is_compound, is_compound_array,
}
use pvxs.TypeDesc.Tree.{
  Head, field_desc, Descs, no_descs, and_desc, new_head, append, single, placed, Member, member,
  Members, no_members, and_member, build_tree, build_node,
}
use pvxs.TypeDesc.Encode.{write_node, to_wire_type}
use pvxs.TypeDesc.Bytes.{
  count_members, is_leaf, compound_bytes, type_bytes, children_bytes, depth, depth_children, IsType,
  AreTypes,
}
use pvxs.TypeDesc.Codes.{is_leaf-is_ordinary}
use pvxs.TypeDesc.Layout.{append-no_descs}
use pvxs.TypeDesc.Writing.{Open, WritesMember, WritesMembers, Writes-Open}
use pvxs.TypeDesc.Compound.{u8-Writes, entered, reparented, struct-Writes, union-Writes}

to_wire_type-array :
    (d : ℕ) (b : Out) (h : Head) (members rest : Descs)
    → is_compound_array h.code ≡ true
    → to_wire_type (suc d) b (and_desc (field_desc h members) rest)
      ≡ to_wire_type d (to_wire_u8 b h.code) members
unfolding to_wire_type write_node
to_wire_type-array d b h members rest e = rw e refl

pub element_kind :
    (code : ℕ)
    → (code ≡ struct_a) ⊎ (code ≡ union_a)
    → (scalar_of code ≡ struct_code) ⊎ (scalar_of code ≡ union_code)
element_kind code (inl e) = inl (ap scalar_of e)
element_kind code (inr e) = inr (ap scalar_of e)

pub array_kind : (code : ℕ) → (code ≡ struct_a) ⊎ (code ≡ union_a) → is_compound_array code ≡ true
array_kind code (inl e) = ap is_compound_array e
array_kind code (inr e) = ap is_compound_array e

module _ (be : Bool) (d : ℕ) (id : List ℕ) (ms : Members) (short : IsShort id)
    (few : count_members ms ≤ 0xffff_ffff) (valid : AreTypes ms)
    (writes : WritesMembers be (to_wire_type d) ms) where
  -- The node of a Struct or a Union, wherever it stands, and whatever its parent index.
  build_node-Writes :
      (code : ℕ)
      → (code ≡ struct_code) ⊎ (code ≡ union_code)
      → (b : Out) (p : Bool) (o : ℕ) (rest : Descs) → Open be b
      → Writes b
          (to_wire_type (suc d) b (append (placed p o (build_node code id ms)) rest))
          (code ∷ compound_bytes be id (count_members ms) (children_bytes be ms))
  unfolding to_wire_type build_node
  build_node-Writes code (inl c) b true o rest is_open = rw c (
      struct-Writes be (to_wire_type d) id ms short few valid writes _ _ rest b
        (reparented 0x80 id ms _ _ o (entered 0x80 id ms)) is_open)
  build_node-Writes code (inl c) b false o rest is_open = rw c (
      struct-Writes be (to_wire_type d) id ms short few valid writes _ _ rest b (entered 0x80 id ms)
        is_open)
  build_node-Writes code (inr c) b true o rest is_open = rw c (
      union-Writes be (to_wire_type d) id ms short few valid writes _ _ _ b
        (reparented 0x81 id ms _ _ o (entered 0x81 id ms)) is_open)
  build_node-Writes code (inr c) b false o rest is_open = rw c (
      union-Writes be (to_wire_type d) id ms short few valid writes _ _ _ b (entered 0x81 id ms)
        is_open)

  -- The node of an array, with the element's node inside.
  array_node-Writes :
      (code : ℕ)
      → (code ≡ struct_a) ⊎ (code ≡ union_a)
      → (b : Out) (h : Head) (rest : Descs) → h.code ≡ code
      → Open be b
      → Writes b
          (to_wire_type
            (suc (suc d))
            b
            (and_desc (field_desc h (build_node (scalar_of code) id ms)) rest))
          (code ∷ scalar_of code ∷ compound_bytes be id (count_members ms) (children_bytes be ms))
  array_node-Writes code kind b h rest e is_open =
      let w1 = u8-Writes be b code is_open in
      let b1 = to_wire_u8 b code in
      let element = build_node (scalar_of code) id ms in
      let w2 : Writes b1 (to_wire_type (suc d) b1 element)
          (scalar_of code ∷ compound_bytes be id (count_members ms) (children_bytes be ms)) =
        subst
          (λ x.
            Writes b1 (to_wire_type (suc d) b1 x)
              (scalar_of code ∷ compound_bytes be id (count_members ms) (children_bytes be ms)))
          (append-no_descs element)
          (build_node-Writes (scalar_of code) (element_kind code kind) b1 false 0 no_descs
            (Writes-Open be w1 is_open)) in
      subst
        (λ x.
          Writes b x (
            code ∷ scalar_of code ∷ compound_bytes be id (count_members ms) (children_bytes be ms)))
        (sym
          (to_wire_type-array (suc d) b h element rest (rw e (array_kind code kind)) ∙ rw e refl))
        (Writes-trans w1 w2)

leaf_node-Writes :
    (be : Bool) (d code : ℕ) (b : Out) (h : Head) (rest : Descs)
    → code < 256
    → is_leaf code ≡ true
    → h.code ≡ code
    → Open be b
    → Writes b (to_wire_type (suc d) b (and_desc (field_desc h no_descs) rest)) (code ∷ [])
unfolding to_wire_type write_node
leaf_node-Writes be d code b h rest byte leaf e is_open =
    let ok = is_leaf-is_ordinary code byte leaf in
    let not_array : is_compound_array code ≡ false = ground arith in
    let not_struct : (code == struct_code) ≡ false = ground arith in
    let not_union : (code == union_code) ≡ false = ground arith in
    rw (e, not_array, not_struct, not_union) (u8-Writes be b code is_open)

leaf-Writes :
    (be : Bool) (d code : ℕ) (name : List ℕ)
    → code < 256
    → is_leaf code ≡ true
    → WritesMember be (to_wire_type (suc d)) (member code name [] no_members)
unfolding build_tree type_bytes
leaf-Writes be d code name byte leaf b p o r is_open =
    let ok = is_leaf-is_ordinary code byte leaf in
    let not_array : is_compound_array code ≡ false = ground arith in
    let not_compound : is_compound code ≡ false = ground arith in
    let not_struct : (code == struct_code) ≡ false = ground arith in
    rw (not_array, not_compound, not_struct)
      (elim p
        as (λ x.
          Writes b
            (to_wire_type (suc d) b (append (placed x o (single (new_head code) no_descs)) r))
            (code ∷ [])) [
              | true ↦
                  leaf_node-Writes be d code b (record (new_head code) { parent_index = o }) r byte
                    leaf refl is_open
              | false ↦ leaf_node-Writes be d code b (new_head code) r byte leaf refl is_open
            ])

array-Writes :
    (be : Bool) (d : ℕ) (id : List ℕ) (ms : Members) (short : IsShort id)
    (few : count_members ms ≤ 0xffff_ffff) (valid : AreTypes ms)
    (writes : WritesMembers be (to_wire_type d) ms) (code : ℕ)
    → (code ≡ struct_a) ⊎ (code ≡ union_a)
    → (b : Out) (p : Bool) (o : ℕ) (rest : Descs) → Open be b
    → Writes b
        (to_wire_type
          (suc (suc d))
          b
          (append (placed p o (single (new_head code) (build_node (scalar_of code) id ms))) rest))
        (code ∷ scalar_of code ∷ compound_bytes be id (count_members ms) (children_bytes be ms))
array-Writes be d id ms short few valid writes code kind b true o rest is_open =
    array_node-Writes be d id ms short few valid writes code kind b
      (record (new_head code) { parent_index = o }) rest refl is_open
array-Writes be d id ms short few valid writes code kind b false o rest is_open =
    array_node-Writes be d id ms short few valid writes code kind b (new_head code) rest refl
      is_open

mutual
  unfolding build_tree build_node type_bytes depth IsType

  pub write_member :
      (be : Bool) (m : Member) (d : ℕ) → IsType m → depth m ≤ d → WritesMember be (to_wire_type d) m
  write_member be (member code name id ms) zero (_, short, few, coded, valid) deep b p o r is_open =
      absurd (ground (arith, deep))
  write_member be (member code name id ms) (suc d)
        (_, short, few, inl (byte, leaf, no_id, none), valid) deep b p o r is_open =
      rw (no_id, none) (leaf-Writes be d code name byte leaf b p o r is_open)
  write_member be (member code name id ms) (suc d) (_, short, few, inr (inl e), valid) deep b p o r
        is_open =
      rw e (
        build_node-Writes be d id ms short few valid
          (write_members be ms d valid (omega (arith, rw e at deep))) 0x80 (inl refl) b p o r
          is_open)
  write_member be (member code name id ms) (suc d) (_, short, few, inr (inr (inl e)), valid) deep b
        p o r is_open =
      rw e (
        build_node-Writes be d id ms short few valid
          (write_members be ms d valid (omega (arith, rw e at deep))) 0x81 (inr refl) b p o r
          is_open)
  write_member be (member code name id ms) (suc zero)
        (_, short, few, inr (inr (inr (inl e))), valid) deep b p o r is_open =
      absurd (omega (arith, rw e at deep))
  write_member be (member code name id ms) (suc zero)
        (_, short, few, inr (inr (inr (inr e))), valid) deep b p o r is_open =
      absurd (omega (arith, rw e at deep))
  write_member be (member code name id ms) (suc (suc d))
        (_, short, few, inr (inr (inr (inl e))), valid) deep b p o r is_open =
      rw e (
        array-Writes be d id ms short few valid
          (write_members be ms d valid (omega (arith, rw e at deep))) 0x88 (inl refl) b p o r
          is_open)
  write_member be (member code name id ms) (suc (suc d))
        (_, short, few, inr (inr (inr (inr e))), valid) deep b p o r is_open =
      rw e (
        array-Writes be d id ms short few valid
          (write_members be ms d valid (omega (arith, rw e at deep))) 0x89 (inr refl) b p o r
          is_open)

  write_members :
      (be : Bool) (ms : Members) (d : ℕ)
      → AreTypes ms
      → depth_children ms ≤ d
      → WritesMembers be (to_wire_type d) ms
  write_members be no_members d valid deep = tt
  write_members be (and_member m ms) d (valid, others) deep =
      (write_member be m d valid (omega arith), write_members be ms d others (omega arith))
