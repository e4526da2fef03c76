-- ===== src/TypeDesc/Children.antt =====
-- src/dataencode.cpp: the children of a node, and the nodes of a simple type, read back.
use pvxs.Prelude.{
  ℕ, suc, ◌≤◌, ◌<◌, ◌%◌, ◌≡◌, refl, ◌∙◌, ap, Bool, true, false, List, [], ◌∷◌, ◌++◌, ◌==◌, arith,
  append_assoc, if-both,
}
use pvxs.Wire.Buffer.{In, fixed_in}
use pvxs.Wire.Scalar.{from_wire_u8, le_bytes, host_be}
use pvxs.Wire.ScalarLaws.{from_wire-wire_bytes}
use pvxs.Wire.Size.{from_wire_size}
use pvxs.Wire.SizeLaws.{size_bytes, from_wire_size-size_bytes}
use pvxs.Wire.Text.{from_wire_str}
use pvxs.Wire.TextLaws.{str_bytes, IsShort, from_wire_str-str_bytes}
use pvxs.TypeDesc.Code.{struct_code, is_compound_array}
use pvxs.TypeDesc.Tree.{
  Head, Descs, no_descs, new_head, append, single, add_child, offset_of, placed, assemble, Member,
  member, Members, no_members, and_member, name_of, element_code, build_tree, build_node,
  build_children,
}
use pvxs.TypeDesc.Decode.{
  decoded, TypeStore, Recurse, is_none, decode_children, decode_compound, decode_code,
}
use pvxs.TypeDesc.Codes.{is_ordinary}
use pvxs.TypeDesc.Bytes.{
  count_members, compound_bytes, type_bytes, children_bytes, IsType, AreTypes,
}

pub from_wire_u8_lem :
    (be : Bool) (old c : ℕ) (rest : List ℕ)
    → c < 256
    → from_wire_u8 old (fixed_in be (c ∷ rest)) ≡ (c, fixed_in be rest)
unfolding le_bytes
from_wire_u8_lem true old c rest lt =
    let e : c % 256 ≡ c = omega arith in rw e at (from_wire-wire_bytes host_be true 1 old c rest lt)
from_wire_u8_lem false old c rest lt =
    let e : c % 256 ≡ c = omega arith in
    rw e at (from_wire-wire_bytes host_be false 1 old c rest lt)

is_none-assemble : (s : Bool) (h : Head) (d : Descs) → is_none (assemble s h d) ≡ false
is_none-assemble true h d = refl
is_none-assemble false h d = refl

pub is_none-build_tree : (m : Member) → is_none (build_tree m) ≡ false
unfolding build_tree build_node
is_none-build_tree (member code name id children) =
    if-both (λ d. is_none d ≡ false) (is_compound_array code)
      {x = single (new_head code) (build_node (element_code code) id children)}
      {y = build_node (element_code code) id children} (λ _. refl)
      (λ _. is_none-assemble (element_code code == struct_code) _ _)

pub decode_code-leaf :
    (rec : Recurse) (cache : TypeStore) (c : ℕ) (b : In)
    → is_ordinary c ≡ true
    → decode_code rec c cache b ≡ decoded b (single (new_head c) no_descs) cache
unfolding decode_code
decode_code-leaf rec cache c b h = ground arith

-- A reader of children that reads the members.
abbrev pub Reads : Bool → Recurse → Members → Type 0
Reads be rec no_members = Unit
Reads be rec (and_member m ms) =
    ((cache : TypeStore) (rest : List ℕ)
      → rec cache (fixed_in be (type_bytes be m ++ rest))
        ≡ decoded (fixed_in be rest) (build_tree m) cache)
    × Reads be rec ms

pub IsType-name_of : (m : Member) → IsType m → IsShort (name_of m)
unfolding IsType
IsType-name_of (member code name id children) (short, _, _, _, _) = short

pub decode_children-suc :
    (rec : Recurse) (cache : TypeStore) (s : Bool) (n : ℕ) (h : Head) (done : Descs) (b b1 b2 : In)
    (name : List ℕ) (child : Descs)
    → from_wire_str [] b ≡ (name, b1)
    → rec cache b1 ≡ decoded b2 child cache
    → b2.good ≡ true
    → is_none child ≡ false
    → decode_children rec s (suc n) h done cache b
      ≡ decode_children rec s n
          (add_child s h name (offset_of s done) child)
          (append done (placed s (offset_of s done) child))
          cache
          b2
unfolding decode_children
decode_children-suc rec cache s n h done b b1 b2 name child e1 e2 good full =
    rw (e1, e2, good, full) refl

pub decode_compound-reads :
    (rec : Recurse) (cache : TypeStore) (code : ℕ) (b b1 b2 : In) (id : List ℕ) (n : ℕ)
    → from_wire_str [] b ≡ (id, b1)
    → from_wire_size false 0 b1 ≡ (n, b2)
    → decode_compound rec code cache b
      ≡ decode_children rec
          (code == struct_code)
          n
          (record (new_head code) { id = id })
          no_descs
          cache
          b2
unfolding decode_compound
decode_compound-reads rec cache code b b1 b2 id n e1 e2 = rw (e1, e2) refl

module _ (be : Bool) (rec : Recurse) (cache : TypeStore) (rest : List ℕ) where
  decode_children_lem :
      (ms : Members) (s : Bool) (h : Head) (done : Descs)
      → AreTypes ms
      → Reads be rec ms
      → decode_children rec s
          (count_members ms)
          h
          done
          cache
          (fixed_in be (children_bytes be ms ++ rest))
        ≡ decoded
            (fixed_in be rest)
            (let r = build_children s h done ms in assemble s r.0 r.1)
            cache
  unfolding decode_children build_tree children_bytes IsType
  decode_children_lem no_members s h done valid reads = refl
  decode_children_lem (and_member m ms) s h done (valid, others) (read, reads) =
      let more : List ℕ = children_bytes be ms ++ rest in
      let name = str_bytes be (name_of m) in
      let text = type_bytes be m in
      let e : children_bytes be (and_member m ms) ++ rest ≡ name ++ (text ++ more) =
        append_assoc name (text ++ children_bytes be ms) rest
        ∙ ap (◌++◌ name) (append_assoc text (children_bytes be ms) rest) in
      ap (λ bytes. decode_children rec s (suc (count_members ms)) h done cache (fixed_in be bytes))
        e
      ∙ decode_children-suc rec cache s (count_members ms) h done
          (fixed_in be (name ++ (text ++ more))) (fixed_in be (text ++ more)) (fixed_in be more)
          (name_of m) (build_tree m)
          (from_wire_str-str_bytes be [] (name_of m) (text ++ more) (IsType-name_of m valid))
          (read cache more) refl (is_none-build_tree m)
      ∙ decode_children_lem ms s (add_child s h (name_of m) (offset_of s done) (build_tree m))
          (append done (placed s (offset_of s done) (build_tree m))) others reads

  -- What follows the code of a Struct or a Union.
  pub decode_compound_lem :
      (code : ℕ) (id : List ℕ) (ms : Members)
      → IsShort id
      → count_members ms ≤ 0xffff_ffff
      → AreTypes ms
      → Reads be rec ms
      → decode_compound rec code cache
          (fixed_in be (compound_bytes be id (count_members ms) (children_bytes be ms) ++ rest))
        ≡ decoded (fixed_in be rest) (build_node code id ms) cache
  unfolding decode_compound build_node
  decode_compound_lem code id ms short few valid reads =
      let kids : List ℕ = children_bytes be ms in
      let n = count_members ms in
      let e : compound_bytes be id n kids ++ rest
          ≡ str_bytes be id ++ (size_bytes be n ++ (kids ++ rest)) =
        append_assoc (str_bytes be id) (size_bytes be n ++ kids) rest
        ∙ ap (◌++◌ (str_bytes be id)) (append_assoc (size_bytes be n) kids rest) in
      ap (λ bytes. decode_compound rec code cache (fixed_in be bytes)) e
      ∙ decode_compound-reads rec cache code
          (fixed_in be (str_bytes be id ++ (size_bytes be n ++ (kids ++ rest))))
          (fixed_in be (size_bytes be n ++ (kids ++ rest))) (fixed_in be (kids ++ rest)) id n
          (from_wire_str-str_bytes be [] id (size_bytes be n ++ (kids ++ rest)) short)
          (from_wire_size-size_bytes be false 0 n (kids ++ rest) few)
      ∙ decode_children_lem ms (code == struct_code) (record (new_head code) { id = id }) no_descs
          valid reads
