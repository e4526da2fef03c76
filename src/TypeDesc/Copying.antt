-- ===== src/TypeDesc/Copying.antt =====
-- src/type.cpp: copy_tree and build_tree.
use pvxs.Prelude.{
  some, ℕ, zero, suc, ◌≤◌, ◌<◌, ◌≡◌, refl, sym, ap, ◌∙◌, ◌⊎◌, inl, inr, Bool, true, false, [], ◌==◌,
  arith,
}
use pvxs.TypeDesc.Code.{
  struct_code, union_code, struct_a, union_a, scalar_of, is_compound, is_compound_array,
}
use pvxs.TypeDesc.Tree.{
  Name, Head, FieldDesc, field_desc, Descs, no_descs, and_desc, new_head, append, single, placed,
  offset_of, Member, member, Members, no_members, and_member, name_of, build_tree, build_node,
  type_def,
}
use pvxs.TypeDesc.Encode.{skip}
use pvxs.TypeDesc.Copy.{as_array, copy_fields, copy_node, copy_tree}
use pvxs.TypeDesc.Bytes.{is_leaf, depth, depth_children, IsType, AreTypes}
use pvxs.TypeDesc.Codes.{is_leaf-is_ordinary}
use pvxs.TypeDesc.Layout.{append-append, append-no_descs, type_def-build_tree, nodes, entries}
use pvxs.TypeDesc.Writing.{base_of, skip-base_of}
use pvxs.TypeDesc.Compound.{Entered, entered, reparented}
use pvxs.TypeDesc.Nodes.{element_kind}

abbrev Copier : Type 0
Copier = Name → Descs → Member

abbrev Copies : Copier → Member → Type 0
Copies rec m =
    (p : Bool) (o : ℕ) (r : Descs) → rec (name_of m) (append (placed p o (build_tree m)) r) ≡ m

abbrev CopiesAll : Copier → Members → Type 0
CopiesAll rec no_members = Unit
CopiesAll rec (and_member m ms) = Copies rec m × CopiesAll rec ms

module _ (rec : Copier) (s : Bool) (d : FieldDesc) (rest : Descs) where
  copy_fields-entries :
      (ms : Members) (done : Descs)
      → CopiesAll rec ms
      → copy_fields rec
          (base_of s d (append done (append (nodes s done ms) rest)))
          (entries s done ms)
        ≡ ms
  unfolding copy_fields
  copy_fields-entries no_members done copies = refl
  copy_fields-entries (and_member m ms) done (copy, copies) =
      let o = offset_of s done in
      let child = placed s o (build_tree m) in
      let more = nodes s (append done child) ms in
      let base = base_of s d (append done (append (append child more) rest)) in
      let at : skip o base ≡ append child (append more rest) =
        skip-base_of s d done (append (append child more) rest) ∙ append-append child more rest in
      let same : base ≡ base_of s d (append (append done child) (append more rest)) =
        ap (base_of s d) (
          ap (append done) (append-append child more rest)
          ∙ sym (append-append done child (append more rest))) in
      ap
        (λ x.
          and_member (rec (name_of m) x) (copy_fields rec base (entries s (append done child) ms)))
        at
      ∙ ap (λ x. and_member x (copy_fields rec base (entries s (append done child) ms)))
          (copy s o (append more rest))
      ∙ ap (λ x. and_member m (copy_fields rec x (entries s (append done child) ms))) same
      ∙ ap (and_member m) (copy_fields-entries ms (append done child) copies)

copy_node-struct :
    (rec : Copier) (name : Name) (h : Head) (members cur : Descs)
    → h.code ≡ struct_code
    → copy_node rec name h members cur ≡ member struct_code name h.id (copy_fields rec cur h.miter)
unfolding copy_node
copy_node-struct rec name h members cur e = rw e refl

copy_node-union :
    (rec : Copier) (name : Name) (h : Head) (members cur : Descs)
    → h.code ≡ union_code
    → copy_node rec name h members cur
      ≡ member union_code name h.id (copy_fields rec members h.miter)
unfolding copy_node
copy_node-union rec name h members cur e = rw e refl

module _ (rec : Copier) (name id : Name) (ms : Members) (copies : CopiesAll rec ms) where
  copy_struct :
      (h : Head) (kids rest : Descs)
      → Entered struct_code id ms h kids
      → copy_node rec name h no_descs (and_desc (field_desc h no_descs) (append kids rest))
        ≡ member struct_code name id ms
  copy_struct h kids rest e =
      let d = field_desc h no_descs in
      copy_node-struct rec name h no_descs (and_desc d (append kids rest)) e.code_is
      ∙ ap
          (λ i. member struct_code name i (copy_fields rec (and_desc d (append kids rest)) h.miter))
          e.id_is
      ∙ ap (λ i. member struct_code name id (copy_fields rec (and_desc d (append kids rest)) i))
          e.miter_is
      ∙ ap
          (λ k.
            member struct_code name id
              (copy_fields rec (and_desc d (append k rest)) (entries true no_descs ms)))
          e.kids_are
      ∙ ap (member struct_code name id) (copy_fields-entries rec true d rest ms no_descs copies)

  copy_union :
      (h : Head) (kids cur : Descs)
      → Entered union_code id ms h kids
      → copy_node rec name h kids cur ≡ member union_code name id ms
  copy_union h kids cur e =
      let d = field_desc h no_descs in
      copy_node-union rec name h kids cur e.code_is
      ∙ rw (e.id_is, e.miter_is)
          (ap (λ k. member union_code name id (copy_fields rec k (entries false no_descs ms)))
              (e.kids_are ∙ sym (append-no_descs _))
            ∙ ap (member union_code name id)
                (copy_fields-entries rec false d no_descs ms no_descs copies))

copy_tree-array :
    (d : ℕ) (name : Name) (h : Head) (members rest : Descs) (code : ℕ)
    → h.code ≡ code
    → (code ≡ struct_a) ⊎ (code ≡ union_a)
    → copy_tree (suc d) name (and_desc (field_desc h members) rest)
      ≡ as_array (copy_tree d name members)
unfolding copy_tree copy_node
copy_tree-array d name h members rest code e (inl c) = rw (e, c) refl
copy_tree-array d name h members rest code e (inr c) = rw (e, c) refl

module _ (d : ℕ) (name id : Name) (ms : Members) (copies : CopiesAll (copy_tree d) ms) where
  copy_build_node :
      (code : ℕ)
      → (code ≡ struct_code) ⊎ (code ≡ union_code)
      → (p : Bool) (o : ℕ) (rest : Descs)
      → copy_tree (suc d) name (append (placed p o (build_node code id ms)) rest)
        ≡ member code name id ms
  unfolding copy_tree build_node
  copy_build_node code (inl c) true o rest = rw c (
      copy_struct (copy_tree d) name id ms copies _ _ rest
        (reparented 0x80 id ms _ _ o (entered 0x80 id ms)))
  copy_build_node code (inl c) false o rest =
      rw c (copy_struct (copy_tree d) name id ms copies _ _ rest (entered 0x80 id ms))
  copy_build_node code (inr c) true o rest = rw c (
      copy_union (copy_tree d) name id ms copies _ _ _
        (reparented 0x81 id ms _ _ o (entered 0x81 id ms)))
  copy_build_node code (inr c) false o rest =
      rw c (copy_union (copy_tree d) name id ms copies _ _ _ (entered 0x81 id ms))

  array_again :
      (code : ℕ)
      → (code ≡ struct_a) ⊎ (code ≡ union_a)
      → as_array (member (scalar_of code) name id ms) ≡ member code name id ms
  array_again code (inl e) = rw e refl
  array_again code (inr e) = rw e refl

  copy_array :
      (code : ℕ)
      → (code ≡ struct_a) ⊎ (code ≡ union_a)
      → (p : Bool) (o : ℕ) (rest : Descs)
      → copy_tree
          (suc (suc d))
          name
          (append (placed p o (single (new_head code) (build_node (scalar_of code) id ms))) rest)
        ≡ member code name id ms
  copy_array code kind true o rest =
      copy_tree-array (suc d) name (record (new_head code) { parent_index = o })
        (build_node (scalar_of code) id ms) rest code refl kind
      ∙ ap as_array (
          ap (copy_tree (suc d) name) (sym (append-no_descs _))
          ∙ copy_build_node (scalar_of code) (element_kind code kind) false 0 no_descs)
      ∙ array_again code kind
  copy_array code kind false o rest =
      copy_tree-array (suc d) name (new_head code) (build_node (scalar_of code) id ms) rest code
        refl kind
      ∙ ap as_array (
          ap (copy_tree (suc d) name) (sym (append-no_descs _))
          ∙ copy_build_node (scalar_of code) (element_kind code kind) false 0 no_descs)
      ∙ array_again code kind

copy_leaf :
    (d code : ℕ) (name : Name)
    → code < 256
    → is_leaf code ≡ true
    → Copies (copy_tree (suc d)) (member code name [] no_members)
unfolding copy_tree copy_node build_tree
copy_leaf d code name byte leaf p o r =
    let ok = is_leaf-is_ordinary code byte leaf in
    let not_array : is_compound_array code ≡ false = ground arith in
    let not_compound : is_compound code ≡ false = ground arith in
    let not_struct : (code == struct_code) ≡ false = ground arith in
    elim p
      as (λ x.
        copy_tree (suc d) name (append (placed x o (build_tree (member code name [] no_members))) r)
        ≡ member code name [] no_members) [
          | true ↦ rw (not_array, not_struct) (rw (not_compound, not_array) refl)
          | false ↦ rw (not_array, not_struct) (rw (not_compound, not_array) refl)
        ]

mutual
  unfolding build_tree build_node depth IsType

  copy_member : (m : Member) (d : ℕ) → IsType m → depth m ≤ d → Copies (copy_tree d) m
  copy_member (member code name id ms) zero (_, short, few, coded, valid) deep p o r =
      absurd (ground (arith, deep))
  copy_member (member code name id ms) (suc d) (_, short, few, inl (byte, leaf, no_id, none), valid)
        deep p o r =
      rw (no_id, none) (copy_leaf d code name byte leaf p o r)
  copy_member (member code name id ms) (suc d) (_, short, few, inr (inl e), valid) deep p o r =
      rw e (
        copy_build_node d name id ms (copy_members ms d valid (omega (arith, rw e at deep))) 0x80
          (inl refl) p o r)
  copy_member (member code name id ms) (suc d) (_, short, few, inr (inr (inl e)), valid) deep p o
        r =
      rw e (
        copy_build_node d name id ms (copy_members ms d valid (omega (arith, rw e at deep))) 0x81
          (inr refl) p o r)
  copy_member (member code name id ms) (suc zero) (_, short, few, inr (inr (inr (inl e))), valid)
        deep p o r =
      absurd (omega (arith, rw e at deep))
  copy_member (member code name id ms) (suc zero) (_, short, few, inr (inr (inr (inr e))), valid)
        deep p o r =
      absurd (omega (arith, rw e at deep))
  copy_member (member code name id ms) (suc (suc d)) (_, short, few, inr (inr (inr (inl e))), valid)
        deep p o r =
      rw e (
        copy_array d name id ms (copy_members ms d valid (omega (arith, rw e at deep))) 0x88
          (inl refl) p o r)
  copy_member (member code name id ms) (suc (suc d)) (_, short, few, inr (inr (inr (inr e))), valid)
        deep p o r =
      rw e (
        copy_array d name id ms (copy_members ms d valid (omega (arith, rw e at deep))) 0x89
          (inr refl) p o r)

  copy_members :
      (ms : Members) (d : ℕ) → AreTypes ms → depth_children ms ≤ d → CopiesAll (copy_tree d) ms
  copy_members no_members d valid deep = tt
  copy_members (and_member m ms) d (valid, others) deep =
      (copy_member m d valid (omega arith), copy_members ms d others (omega arith))

-- For a type of valid codes on which the assertion of build_tree holds, with names, ids and
-- numbers of children that fit in 32 bits, copy_tree gives back from the nodes of its TypeDef the
-- Member that they were made of, with its codes, names, ids and children, with fuel for as many
-- levels.
pub copy_tree-build_tree :
    (m : Member) (levels : ℕ) (d : Descs)
    → type_def m ≡ some d
    → IsType m
    → depth m ≤ levels
    → copy_tree levels (name_of m) d ≡ m
copy_tree-build_tree m levels d made valid fits =
    type_def-build_tree (λ x. copy_tree levels (name_of m) x ≡ m) m d made
      (ap (copy_tree levels (name_of m)) (sym (append-no_descs (build_tree m)))
        ∙ copy_member m levels valid fits false 0 no_descs)
