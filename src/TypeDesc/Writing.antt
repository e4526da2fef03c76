-- ===== src/TypeDesc/Writing.antt =====
-- src/dataencode.cpp: what `to_wire` writes for the description that build_tree makes.
use pvxs.Prelude.{ℕ, suc, ◌+◌, ◌≤◌, ◌≡◌, sym, ap, subst, ◌∙◌, inl, Bool, true, false, List, arith}
use pvxs.Wire.Buffer.{Out}
use pvxs.Wire.Laws.{Writes, Writes-nil, Writes-trans}
use pvxs.Wire.Size.{to_wire_size}
use pvxs.Wire.SizeLaws.{size_bytes, to_wire_size-Writes}
use pvxs.Wire.Text.{to_wire_str}
use pvxs.Wire.TextLaws.{str_bytes, IsShort, to_wire_str-Writes}
use pvxs.TypeDesc.Tree.{
  FieldDesc, Descs, and_desc, append, count, placed, offset_of, Member, Members, no_members,
  and_member, name_of, build_tree,
}
use pvxs.TypeDesc.Encode.{skip, write_fields}
use pvxs.TypeDesc.Bytes.{type_bytes, children_bytes, IsType, AreTypes}
use pvxs.TypeDesc.Children.{IsType-name_of}
use pvxs.TypeDesc.Layout.{append-append, skip-append, nodes, entries}

abbrev pub Writer : Type 0
Writer = Out → Descs → Out

-- A buffer that grows, with no fault.
abbrev pub Open : Bool → Out → Type 0
Open be b = (b.good ≡ true) × (b.be ≡ be) × (b.grows ≡ true)

pub Writes-Open : (be : Bool) {b c : Out} {bs : List ℕ} → Writes b c bs → Open be b → Open be c
Writes-Open be w (good, order, grows) = (w.is_good, w.same_order ∙ order, w.same_kind ∙ grows)

pub str-Writes :
    (be : Bool) (b : Out) (s : List ℕ)
    → Open be b
    → IsShort s
    → Writes b (to_wire_str b s) (str_bytes be s)
str-Writes be b s (good, order, grows) short =
    to_wire_str-Writes b be s short good order (inl grows)

pub size-Writes :
    (be : Bool) (b : Out) (n : ℕ)
    → Open be b
    → n ≤ 0xffff_ffff
    → Writes b (to_wire_size b n) (size_bytes be n)
size-Writes be b n (good, order, grows) few =
    subst (λ x. Writes b (to_wire_size b n) (size_bytes x n)) order
      (to_wire_size-Writes b n few good (inl grows))

-- A writer that writes a member, wherever it stands.
abbrev pub WritesMember : Bool → Writer → Member → Type 0
WritesMember be rec m =
    (b : Out) (p : Bool) (o : ℕ) (r : Descs)
    → Open be b
    → Writes b (rec b (append (placed p o (build_tree m)) r)) (type_bytes be m)

abbrev pub WritesMembers : Bool → Writer → Members → Type 0
WritesMembers be rec no_members = Unit
WritesMembers be rec (and_member m ms) = WritesMember be rec m × WritesMembers be rec ms

-- The nodes that offsets count from: behind the parent, or from the first of `members`.
abbrev pub base_of : Bool → FieldDesc → Descs → Descs
base_of true d x = and_desc d x
base_of false d x = x

pub skip-base_of :
    (s : Bool) (d : FieldDesc) (done x : Descs)
    → skip (offset_of s done) (base_of s d (append done x)) ≡ x
skip-base_of true d done x =
    let e : 1 + count done ≡ suc (count done) = omega arith in rw e (skip-append done x)
skip-base_of false d done x =
    let e : 0 + count done ≡ count done = omega arith in rw e (skip-append done x)

module _ (be : Bool) (rec : Writer) (s : Bool) (d : FieldDesc) (rest : Descs) where
  pub write_fields-Writes :
      (ms : Members) (done : Descs) (b : Out)
      → AreTypes ms
      → WritesMembers be rec ms
      → Open be b
      → Writes b
          (write_fields rec
            (base_of s d (append done (append (nodes s done ms) rest)))
            (entries s done ms)
            b)
          (children_bytes be ms)
  unfolding write_fields type_bytes IsType
  write_fields-Writes no_members done b valid writes is_open = Writes-nil b is_open.0
  write_fields-Writes (and_member m ms) done b (valid, others) (write, writes) is_open =
      let o = offset_of s done in
      let child = placed s o (build_tree m) in
      let more = nodes s (append done child) ms in
      let base = base_of s d (append done (append (append child more) rest)) in
      let at : skip o base ≡ append child (append more rest) =
        skip-base_of s d done (append (append child more) rest) ∙ append-append child more rest in
      let same : base ≡ base_of s d (append (append done child) (append more rest)) =
        ap (base_of s d) (
          ap (append done) (append-append child more rest)
          ∙ sym (append-append done child (append more rest))) in
      let b1 = to_wire_str b (name_of m) in
      let b2 = rec b1 (skip o base) in
      let w1 = str-Writes be b (name_of m) is_open (IsType-name_of m valid) in
      let w2 : Writes b1 b2 (type_bytes be m) =
        subst (λ x. Writes b1 (rec b1 x) (type_bytes be m)) (sym at)
          (write b1 s o (append more rest) (Writes-Open be w1 is_open)) in
      let w3 : Writes b2 (write_fields rec base (entries s (append done child) ms) b2)
          (children_bytes be ms) =
        subst
          (λ x.
            Writes b2 (write_fields rec x (entries s (append done child) ms) b2)
              (children_bytes be ms))
          (sym same)
          (write_fields-Writes ms (append done child) b2 others writes
            (Writes-Open be w2 (Writes-Open be w1 is_open))) in
      Writes-trans w1 (Writes-trans w2 w3)
