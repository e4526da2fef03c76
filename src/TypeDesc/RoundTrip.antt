-- ===== src/TypeDesc/RoundTrip.antt =====
-- src/dataencode.cpp: the description that is read back.
use pvxs.Prelude.{
  ℕ, zero, suc, ◌≤◌, ◌<◌, ◌≡◌, refl, ◌∙◌, ◌⊎◌, inl, inr, Bool, true, false, List, [], ◌∷◌, ◌++◌,
  ◌==◌, arith, ==_refl,
}
use pvxs.Wire.Buffer.{In, fixed_in}
use pvxs.Wire.TextLaws.{IsShort}
use pvxs.TypeDesc.Code.{
  struct_code, union_code, struct_a, union_a, null_code, scalar_of, is_compound, is_compound_array,
}
use pvxs.TypeDesc.Tree.{
  Head, Descs, no_descs, new_head, single, add_child, offset_of, assemble, Member, member, Members,
  no_members, and_member, name_of, build_tree, build_node, build_children,
}
use pvxs.TypeDesc.Decode.{
  decoded, TypeStore, Recurse, first_code_is, decode_array, decode_code, decode,
}
use pvxs.TypeDesc.Codes.{is_leaf-is_ordinary}
use pvxs.TypeDesc.Bytes.{
  count_members, is_leaf, compound_bytes, type_bytes, children_bytes, depth, depth_children, IsType,
  AreTypes,
}
use pvxs.TypeDesc.Children.{from_wire_u8_lem, decode_code-leaf, Reads, decode_compound_lem}

pub decode-code :
    (be : Bool) (d : ℕ) (cache : TypeStore) (code : ℕ) (bytes : List ℕ)
    → code < 256
    → decode (suc d) cache (fixed_in be (code ∷ bytes))
      ≡ decode_code (decode d) code cache (fixed_in be bytes)
unfolding decode
decode-code be d cache code bytes lt = rw (from_wire_u8_lem be null_code code bytes lt) refl

-- A Struct or a Union.
compound_lem :
    (be : Bool) (d : ℕ) (cache : TypeStore) (rest : List ℕ) (code : ℕ) (id : List ℕ) (ms : Members)
    → (code ≡ struct_code) ⊎ (code ≡ union_code)
    → IsShort id
    → count_members ms ≤ 0xffff_ffff
    → AreTypes ms
    → Reads be (decode d) ms
    → decode (suc d) cache (
        fixed_in be
          (code ∷ (compound_bytes be id (count_members ms) (children_bytes be ms) ++ rest)))
      ≡ decoded (fixed_in be rest) (build_node code id ms) cache
unfolding decode_code
compound_lem be d cache rest code id ms (inl e) short few valid reads = rw e (
    decode-code be d cache 0x80 _ (omega arith)
    ∙ decode_compound_lem be (decode d) cache rest 0x80 id ms short few valid reads)
compound_lem be d cache rest code id ms (inr e) short few valid reads = rw e (
    decode-code be d cache 0x81 _ (omega arith)
    ∙ decode_compound_lem be (decode d) cache rest 0x81 id ms short few valid reads)

build_children-code :
    (ms : Members) (s : Bool) (h : Head) (done : Descs)
    → (build_children s h done ms).0.code ≡ h.code
unfolding build_tree add_child
build_children-code no_members s h done = refl
build_children-code (and_member m ms) s h done =
    build_children-code ms s (add_child s h (name_of m) (offset_of s done) (build_tree m)) _

first_code_is-assemble :
    (c : ℕ) (s : Bool) (h : Head) (kids : Descs)
    → h.code ≡ c
    → first_code_is c (assemble s h kids) ≡ true
first_code_is-assemble c true h kids e = rw e (==_refl c)
first_code_is-assemble c false h kids e = rw e (==_refl c)

first_code_is-build_node :
    (code : ℕ) (id : List ℕ) (ms : Members) → first_code_is code (build_node code id ms) ≡ true
unfolding build_node
first_code_is-build_node code id ms =
    first_code_is-assemble code (code == struct_code) _ _
      (build_children-code ms (code == struct_code) (record (new_head code) { id = id }) no_descs)

decode_array-reads :
    (rec : Recurse) (cache : TypeStore) (code : ℕ) (b b2 : In) (d : Descs)
    → rec cache b ≡ decoded b2 d cache
    → b2.good ≡ true
    → first_code_is (scalar_of code) d ≡ true
    → decode_array rec code cache b ≡ decoded b2 (single (new_head code) d) cache
unfolding decode_array
decode_array-reads rec cache code b b2 d e good same = rw (e, good, same) refl

-- An array of them, with the element's description inside.
array_lem :
    (be : Bool) (d : ℕ) (cache : TypeStore) (rest : List ℕ) (code : ℕ) (id : List ℕ) (ms : Members)
    → (code ≡ struct_a) ⊎ (code ≡ union_a)
    → IsShort id
    → count_members ms ≤ 0xffff_ffff
    → AreTypes ms
    → Reads be (decode d) ms
    → decode (suc (suc d)) cache (
        fixed_in be (
          code
          ∷ scalar_of code
          ∷ (compound_bytes be id (count_members ms) (children_bytes be ms) ++ rest)))
      ≡ decoded
          (fixed_in be rest)
          (single (new_head code) (build_node (scalar_of code) id ms))
          cache
unfolding decode_code decode_array
array_lem be d cache rest code id ms (inl e) short few valid reads = rw e (
    decode-code be (suc d) cache 0x88 _ (omega arith)
    ∙ decode_array-reads (decode (suc d)) cache 0x88 _ _ _
        (compound_lem be d cache rest 0x80 id ms (inl refl) short few valid reads) refl
        (first_code_is-build_node 0x80 id ms))
array_lem be d cache rest code id ms (inr e) short few valid reads = rw e (
    decode-code be (suc d) cache 0x89 _ (omega arith)
    ∙ decode_array-reads (decode (suc d)) cache 0x89 _ _ _
        (compound_lem be d cache rest 0x81 id ms (inr refl) short few valid reads) refl
        (first_code_is-build_node 0x81 id ms))

leaf_lem :
    (be : Bool) (d : ℕ) (cache : TypeStore) (rest : List ℕ) (code : ℕ) (name : List ℕ)
    → code < 256
    → is_leaf code ≡ true
    → decode (suc d) cache (fixed_in be (type_bytes be (member code name [] no_members) ++ rest))
      ≡ decoded (fixed_in be rest) (build_tree (member code name [] no_members)) cache
unfolding build_tree type_bytes
leaf_lem be d cache rest code name byte leaf =
    let ok = is_leaf-is_ordinary code byte leaf in
    let not_array : is_compound_array code ≡ false = ground arith in
    let not_compound : is_compound code ≡ false = ground arith in
    let not_struct : (code == struct_code) ≡ false = ground arith in
    rw (not_array, not_compound, not_struct)
      (decode-code be d cache code rest byte
        ∙ decode_code-leaf (decode d) cache code (fixed_in be rest) ok)

mutual
  unfolding build_tree build_node type_bytes depth IsType

  pub decode_member :
      (be : Bool) (m : Member) (d : ℕ)
      → IsType m
      → depth m ≤ d
      → (cache : TypeStore) (rest : List ℕ)
      → decode d cache (fixed_in be (type_bytes be m ++ rest))
        ≡ decoded (fixed_in be rest) (build_tree m) cache
  decode_member be (member code name id ms) zero (_, short, few, coded, valid) deep cache rest =
      absurd (ground (arith, deep))
  decode_member be (member code name id ms) (suc d)
        (_, short, few, inl (byte, leaf, no_id, none), valid) deep cache rest =
      rw (no_id, none) (leaf_lem be d cache rest code name byte leaf)
  decode_member be (member code name id ms) (suc d) (_, short, few, inr (inl e), valid) deep cache
        rest =
      rw e (
        compound_lem be d cache rest 0x80 id ms (inl refl) short few valid
          (decode_members be ms d valid (omega (arith, rw e at deep))))
  decode_member be (member code name id ms) (suc d) (_, short, few, inr (inr (inl e)), valid) deep
        cache rest =
      rw e (
        compound_lem be d cache rest 0x81 id ms (inr refl) short few valid
          (decode_members be ms d valid (omega (arith, rw e at deep))))
  decode_member be (member code name id ms) (suc zero)
        (_, short, few, inr (inr (inr (inl e))), valid) deep cache rest =
      absurd (omega (arith, rw e at deep))
  decode_member be (member code name id ms) (suc zero)
        (_, short, few, inr (inr (inr (inr e))), valid) deep cache rest =
      absurd (omega (arith, rw e at deep))
  decode_member be (member code name id ms) (suc (suc d))
        (_, short, few, inr (inr (inr (inl e))), valid) deep cache rest =
      rw e (
        array_lem be d cache rest 0x88 id ms (inl refl) short few valid
          (decode_members be ms d valid (omega (arith, rw e at deep))))
  decode_member be (member code name id ms) (suc (suc d))
        (_, short, few, inr (inr (inr (inr e))), valid) deep cache rest =
      rw e (
        array_lem be d cache rest 0x89 id ms (inr refl) short few valid
          (decode_members be ms d valid (omega (arith, rw e at deep))))

  decode_members :
      (be : Bool) (ms : Members) (d : ℕ)
      → AreTypes ms
      → depth_children ms ≤ d
      → Reads be (decode d) ms
  decode_members be no_members d valid deep = tt
  decode_members be (and_member m ms) d (valid, others) deep = (
    (λ cache rest. decode_member be m d valid (omega arith) cache rest),
    decode_members be ms d others (omega arith),
  )
