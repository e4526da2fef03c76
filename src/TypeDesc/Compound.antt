-- ===== src/TypeDesc/Compound.antt =====
-- src/dataencode.cpp: what `to_wire` writes for a Struct or a Union.
use pvxs.Prelude.{ℕ, ◌≤◌, ◌≡◌, refl, sym, subst, inl, Bool, true, false, List, [], ◌∷◌, ◌==◌}
use pvxs.Wire.Buffer.{Out}
use pvxs.Wire.Laws.{Writes, Writes-trans, put_bytes-Writes}
use pvxs.Wire.Scalar.{to_wire_u8}
use pvxs.Wire.Size.{to_wire_size}
use pvxs.Wire.Text.{to_wire_str}
use pvxs.Wire.TextLaws.{IsShort}
use pvxs.TypeDesc.Code.{struct_code, union_code}
use pvxs.TypeDesc.Tree.{
  Head, FieldDesc, field_desc, Descs, no_descs, and_desc, new_head, append, Members, build_children,
}
use pvxs.TypeDesc.Encode.{write_compound, write_node}
use pvxs.TypeDesc.Bytes.{count_members, compound_bytes, children_bytes, AreTypes}
use pvxs.TypeDesc.Layout.{
  append-no_descs, nodes, entries, length-entries, build_children-nodes, build_children-entries,
}
use pvxs.TypeDesc.Writing.{
  Writer, Open, WritesMembers, base_of, Writes-Open, str-Writes, size-Writes, write_fields-Writes,
}

pub u8-Writes : (be : Bool) (b : Out) (c : ℕ) → Open be b → Writes b (to_wire_u8 b c) (c ∷ [])
u8-Writes be b c (good, order, grows) = put_bytes-Writes b (c ∷ []) good (inl grows)

write_node-struct :
    (rec : Writer) (h : Head) (members cur : Descs) (b : Out)
    → h.code ≡ struct_code
    → write_node rec h members cur (to_wire_u8 b h.code)
      ≡ write_compound rec h cur (to_wire_u8 b struct_code)
unfolding write_node
write_node-struct rec h members cur b e = rw e refl

-- What build_tree enters in the head of a Struct or a Union.
pub record Entered (code : ℕ) (id : List ℕ) (ms : Members) (h : Head) (kids : Descs) : Type 0 where
  pub code_is : h.code ≡ code
  pub id_is : h.id ≡ id
  pub miter_is : h.miter ≡ entries (code == struct_code) no_descs ms
  pub kids_are : kids ≡ nodes (code == struct_code) no_descs ms

module _ (be : Bool) (rec : Writer) (id : List ℕ) (ms : Members) (short : IsShort id)
    (few : count_members ms ≤ 0xffff_ffff) (valid : AreTypes ms)
    (writes : WritesMembers be rec ms) where
  write_compound-Writes :
      (s : Bool) (h : Head) (d : FieldDesc) (rest : Descs) (b : Out)
      → h.id ≡ id
      → h.miter ≡ entries s no_descs ms
      → Open be b
      → Writes b
          (write_compound rec h (base_of s d (append (nodes s no_descs ms) rest)) b)
          (compound_bytes be id (count_members ms) (children_bytes be ms))
  write_compound-Writes s h d rest b same_id same_miter is_open =
      let b1 = to_wire_str b id in
      let n = count_members ms in
      let w1 = str-Writes be b id is_open short in
      let w2 = size-Writes be b1 n (Writes-Open be w1 is_open) few in
      let w3 =
        write_fields-Writes be rec s d rest ms no_descs (to_wire_size b1 n) valid writes
          (Writes-Open be w2 (Writes-Open be w1 is_open)) in
      rw (same_id, same_miter, length-entries ms s no_descs) (Writes-trans w1 (Writes-trans w2 w3))

  pub struct-Writes :
      (h : Head) (kids rest : Descs) (b : Out)
      → Entered struct_code id ms h kids
      → Open be b
      → Writes b
          (write_node rec h no_descs
            (and_desc (field_desc h no_descs) (append kids rest))
            (to_wire_u8 b h.code))
          (struct_code ∷ compound_bytes be id (count_members ms) (children_bytes be ms))
  struct-Writes h kids rest b e is_open =
      let w1 = u8-Writes be b struct_code is_open in
      let d = field_desc h no_descs in
      let w2 : Writes (to_wire_u8 b struct_code)
          (write_compound rec h (and_desc d (append kids rest)) (to_wire_u8 b struct_code))
          (compound_bytes be id (count_members ms) (children_bytes be ms)) =
        subst
          (λ x.
            Writes (to_wire_u8 b struct_code)
              (write_compound rec h (and_desc d (append x rest)) (to_wire_u8 b struct_code))
              (compound_bytes be id (count_members ms) (children_bytes be ms)))
          (sym e.kids_are)
          (write_compound-Writes true h d rest (to_wire_u8 b struct_code) e.id_is e.miter_is
            (Writes-Open be w1 is_open)) in
      subst
        (λ x.
          Writes b x (struct_code ∷ compound_bytes be id (count_members ms) (children_bytes be ms)))
        (sym (write_node-struct rec h no_descs (and_desc d (append kids rest)) b e.code_is))
        (Writes-trans w1 w2)

  pub union-Writes :
      (h : Head) (kids cur : Descs) (b : Out)
      → Entered union_code id ms h kids
      → Open be b
      → Writes b
          (write_node rec h kids cur (to_wire_u8 b h.code))
          (union_code ∷ compound_bytes be id (count_members ms) (children_bytes be ms))
  unfolding write_node
  union-Writes h kids cur b e is_open =
      let w1 = u8-Writes be b union_code is_open in
      rw (e.code_is, e.kids_are, ← append-no_descs (nodes false no_descs ms))
        (Writes-trans w1 (
          write_compound-Writes false h (field_desc h no_descs) no_descs (to_wire_u8 b union_code)
            e.id_is e.miter_is (Writes-Open be w1 is_open)))

module _ (code : ℕ) (id : List ℕ) (ms : Members) where
  pub entered :
      let r =
        build_children (code == struct_code) (record (new_head code) { id = id }) no_descs ms in
      Entered code id ms r.0 r.1
  entered =
      let (miter, same_id, same_code) =
        build_children-entries ms (code == struct_code) (record (new_head code) { id = id })
          no_descs in
      record {
        code_is = same_code;
        id_is = same_id;
        miter_is = miter;
        kids_are =
            build_children-nodes ms (code == struct_code) (record (new_head code) { id = id })
              no_descs;
      }

  pub reparented :
      (h : Head) (kids : Descs) (o : ℕ)
      → Entered code id ms h kids
      → Entered code id ms (record h { parent_index = o }) kids
  reparented h kids o e = record {
    code_is = e.code_is;
    id_is = e.id_is;
    miter_is = e.miter_is;
    kids_are = e.kids_are;
  }
