-- ===== src/TypeDesc/Limit.antt =====
-- src/dataencode.cpp: types that are nested too deep.
use pvxs.Prelude.{
  Bool-cases, leb, leb→le, ℕ, zero, suc, ◌≤◌, ◌<◌, ◌≡◌, refl, ◌∙◌, ap, ◌⊎◌, inl, inr, Bool, true,
  false, List, [], ◌∷◌, ◌++◌, arith, append_assoc,
}
use pvxs.Wire.Buffer.{In, fixed_in}
use pvxs.Wire.SizeLaws.{size_bytes, from_wire_size-size_bytes}
use pvxs.Wire.Text.{from_wire_str}
use pvxs.Wire.TextLaws.{str_bytes, IsShort, from_wire_str-str_bytes}
use pvxs.TypeDesc.Code.{struct_code, union_code, struct_a, union_a, scalar_of, is_compound_array}
use pvxs.TypeDesc.Tree.{
  Head, Descs, no_descs, new_head, append, add_child, offset_of, placed, Member, member, Members,
  no_members, and_member, name_of, build_tree,
}
use pvxs.TypeDesc.Decode.{
  Decoded, from_wire_type, TypeStore, Recurse, decode_children, decode_compound, decode_array,
  decode_code, decode,
}
use pvxs.TypeDesc.Codes.{is_leaf-is_ordinary}
use pvxs.TypeDesc.Bytes.{
  count_members, compound_bytes, type_bytes, children_bytes, depth, depth_children, IsType,
  AreTypes,
}
use pvxs.TypeDesc.Children.{
  IsType-name_of, is_none-build_tree, decode_children-suc, decode_compound-reads,
}
use pvxs.TypeDesc.RoundTrip.{decode-code, decode_member}

abbrev IsFaulted : Decoded → Type 0
IsFaulted r = r.buf.good ≡ false

-- A fault of a child is a fault of its parent.
decode_children-fault :
    (rec : Recurse) (cache : TypeStore) (s : Bool) (n : ℕ) (h : Head) (done : Descs) (b b1 : In)
    (name : List ℕ)
    → from_wire_str [] b ≡ (name, b1)
    → IsFaulted (rec cache b1)
    → IsFaulted (decode_children rec s (suc n) h done cache b)
unfolding decode_children
decode_children-fault rec cache s n h done b b1 name e bad = rw (e, bad) refl

decode_array-fault :
    (rec : Recurse) (code : ℕ) (cache : TypeStore) (b : In)
    → IsFaulted (rec cache b)
    → IsFaulted (decode_array rec code cache b)
unfolding decode_array
decode_array-fault rec code cache b bad = rw bad refl

-- Where the children of a node are too deep for its reader.
abbrev AreTooDeep : Bool → ℕ → Members → Type 0
AreTooDeep be d ms =
    (cache : TypeStore) (rest : List ℕ) (s : Bool) (h : Head) (done : Descs)
    → IsFaulted (
        decode_children (decode d) s (count_members ms) h done cache
          (fixed_in be (children_bytes be ms ++ rest)))

too_deep_compound :
    (be : Bool) (d : ℕ) (code : ℕ) (id : List ℕ) (ms : Members)
    → (code ≡ struct_code) ⊎ (code ≡ union_code)
    → IsShort id
    → count_members ms ≤ 0xffff_ffff
    → AreTooDeep be d ms
    → (cache : TypeStore) (rest : List ℕ)
    → IsFaulted (
        decode (suc d) cache (
          fixed_in be
            (code ∷ (compound_bytes be id (count_members ms) (children_bytes be ms) ++ rest))))
unfolding decode_code
too_deep_compound be d code id ms kind short few deep cache rest =
    let kids : List ℕ = children_bytes be ms in
    let n = count_members ms in
    let e : compound_bytes be id n kids ++ rest
        ≡ str_bytes be id ++ (size_bytes be n ++ (kids ++ rest)) =
      append_assoc (str_bytes be id) (size_bytes be n ++ kids) rest
      ∙ ap (◌++◌ (str_bytes be id)) (append_assoc (size_bytes be n) kids rest) in
    let read = (λ (c : ℕ).
      decode_compound-reads (decode d) cache c
        (fixed_in be (str_bytes be id ++ (size_bytes be n ++ (kids ++ rest))))
        (fixed_in be (size_bytes be n ++ (kids ++ rest))) (fixed_in be (kids ++ rest)) id n
        (from_wire_str-str_bytes be [] id (size_bytes be n ++ (kids ++ rest)) short)
        (from_wire_size-size_bytes be false 0 n (kids ++ rest) few)) in
    elim kind [
      | inl c ↦ rw c (
          ap (λ r. r.buf.good)
            (decode-code be d cache 0x80 _ (omega arith)
              ∙ ap (λ x. decode_compound (decode d) 0x80 cache (fixed_in be x)) e
              ∙ read 0x80)
          ∙ deep cache rest true (record (new_head 0x80) { id = id }) no_descs)
      | inr c ↦ rw c (
          ap (λ r. r.buf.good)
            (decode-code be d cache 0x81 _ (omega arith)
              ∙ ap (λ x. decode_compound (decode d) 0x81 cache (fixed_in be x)) e
              ∙ read 0x81)
          ∙ deep cache rest false (record (new_head 0x81) { id = id }) no_descs)
    ]

-- An array of them, whose element is too deep for what is left.
too_deep_array :
    (be : Bool) (d : ℕ) (code : ℕ) (id : List ℕ) (ms : Members)
    → (code ≡ struct_a) ⊎ (code ≡ union_a)
    → (cache : TypeStore) (rest : List ℕ)
    → IsFaulted (
        decode d cache (
          fixed_in be (
            scalar_of code
            ∷ (compound_bytes be id (count_members ms) (children_bytes be ms) ++ rest))))
    → IsFaulted (
        decode (suc d) cache (
          fixed_in be (
            code
            ∷ scalar_of code
            ∷ (compound_bytes be id (count_members ms) (children_bytes be ms) ++ rest))))
unfolding decode_code
too_deep_array be d code id ms (inl c) cache rest = rw c (λ bad.
    ap (λ r. r.buf.good) (decode-code be d cache 0x88 _ (omega arith))
    ∙ decode_array-fault (decode d) 0x88 cache _ bad)
too_deep_array be d code id ms (inr c) cache rest = rw c (λ bad.
    ap (λ r. r.buf.good) (decode-code be d cache 0x89 _ (omega arith))
    ∙ decode_array-fault (decode d) 0x89 cache _ bad)

mutual
  unfolding build_tree type_bytes depth IsType decode

  decode-too_deep :
      (be : Bool) (m : Member) (d : ℕ)
      → IsType m
      → d < depth m
      → (cache : TypeStore) (rest : List ℕ)
      → IsFaulted (decode d cache (fixed_in be (type_bytes be m ++ rest)))
  decode-too_deep be m zero valid deep cache rest = refl
  decode-too_deep be (member code name id ms) (suc d)
        (_, short, few, inl (byte, leaf, no_id, none), valid) deep cache rest =
      let ok = is_leaf-is_ordinary code byte leaf in
      let not_array : is_compound_array code ≡ false = ground arith in
      absurd (omega (arith, rw (none, not_array) at deep))
  decode-too_deep be (member code name id ms) (suc d) (_, short, few, inr (inl e), valid) deep cache
        rest =
      rw e (
        too_deep_compound be d 0x80 id ms (inl refl) short few
          (members-too_deep be ms d valid (omega (arith, rw e at deep))) cache rest)
  decode-too_deep be (member code name id ms) (suc d) (_, short, few, inr (inr (inl e)), valid) deep
        cache rest =
      rw e (
        too_deep_compound be d 0x81 id ms (inr refl) short few
          (members-too_deep be ms d valid (omega (arith, rw e at deep))) cache rest)
  decode-too_deep be (member code name id ms) (suc zero)
        (_, short, few, inr (inr (inr (inl e))), valid) deep cache rest =
      rw e (too_deep_array be 0 0x88 id ms (inl refl) cache rest refl)
  decode-too_deep be (member code name id ms) (suc zero)
        (_, short, few, inr (inr (inr (inr e))), valid) deep cache rest =
      rw e (too_deep_array be 0 0x89 id ms (inr refl) cache rest refl)
  decode-too_deep be (member code name id ms) (suc (suc d))
        (_, short, few, inr (inr (inr (inl e))), valid) deep cache rest =
      rw e (
        too_deep_array be (suc d) 0x88 id ms (inl refl) cache rest (
          too_deep_compound be d 0x80 id ms (inl refl) short few
            (members-too_deep be ms d valid (omega (arith, rw e at deep))) cache rest))
  decode-too_deep be (member code name id ms) (suc (suc d))
        (_, short, few, inr (inr (inr (inr e))), valid) deep cache rest =
      rw e (
        too_deep_array be (suc d) 0x89 id ms (inr refl) cache rest (
          too_deep_compound be d 0x81 id ms (inr refl) short few
            (members-too_deep be ms d valid (omega (arith, rw e at deep))) cache rest))

  members-too_deep :
      (be : Bool) (ms : Members) (d : ℕ) → AreTypes ms → d < depth_children ms → AreTooDeep be d ms
  members-too_deep be no_members d valid deep cache rest s h done = absurd (omega arith)
  members-too_deep be (and_member m ms) d (valid, others) deep cache rest s h done =
      let more : List ℕ = children_bytes be ms ++ rest in
      let name = str_bytes be (name_of m) in
      let text = type_bytes be m in
      let e : children_bytes be (and_member m ms) ++ rest ≡ name ++ (text ++ more) =
        append_assoc name (text ++ children_bytes be ms) rest
        ∙ ap (◌++◌ name) (append_assoc text (children_bytes be ms) rest) in
      let read =
        from_wire_str-str_bytes be [] (name_of m) (text ++ more) (IsType-name_of m valid) in
      ap
        (λ bytes.
          (decode_children (decode d) s (suc (count_members ms)) h done cache
            (fixed_in be bytes)).buf.good)
        e
      ∙ elim (Bool-cases (leb (depth m) d)) [
        | inl ok ↦
            let le : depth m ≤ d = leb→le (depth m) d ok in
            ap (λ r. r.buf.good)
              (decode_children-suc (decode d) cache s (count_members ms) h done
                (fixed_in be (name ++ (text ++ more))) (fixed_in be (text ++ more))
                (fixed_in be more) (name_of m) (build_tree m) read
                (decode_member be m d valid le cache more) refl (is_none-build_tree m))
            ∙ members-too_deep be ms d others (omega arith) cache rest s
                (add_child s h (name_of m) (offset_of s done) (build_tree m))
                (append done (placed s (offset_of s done) (build_tree m)))
        | inr bad ↦
            let lt : d < depth m = ground arith in
            decode_children-fault (decode d) cache s (count_members ms) h done
              (fixed_in be (name ++ (text ++ more))) (fixed_in be (text ++ more)) (name_of m) read
              (decode-too_deep be m d valid lt cache more)
      ]

-- A type of valid codes with more than 21 levels (an array of a Struct or a Union is two), and
-- with names, ids and numbers of children that fit in 32 bits, makes from_wire fault, wherever in
-- the type the deep part is.
pub from_wire_type-too_deep :
    (be : Bool) (m : Member) (cache : TypeStore) (rest : List ℕ)
    → IsType m
    → 21 < depth m
    → (from_wire_type cache (fixed_in be (type_bytes be m ++ rest))).buf.good ≡ false
unfolding from_wire_type decode
from_wire_type-too_deep be m cache rest valid deep = decode-too_deep be m 21 valid deep cache rest
