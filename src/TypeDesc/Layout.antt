-- ===== src/TypeDesc/Layout.antt =====
-- src/type.cpp: where build_tree puts the children of a node, and what it enters for them.
use mathlib.Core.Option.{some-injective, none-ne-some}
use pvxs.Prelude.{
  subst, if-both, Option, some, suc, ◌+◌, ◌≡◌, refl, sym, ap, ◌∙◌, Bool, [], ◌∷◌, ◌++◌,
  append_assoc, append-nil, length, arith,
}
use pvxs.TypeDesc.Tree.{
  holds_assert, type_def, Member, Index, Head, Descs, no_descs, and_desc, append, count, placed,
  offset_of, add_child, Members, no_members, and_member, name_of, build_tree, build_children,
}
use pvxs.TypeDesc.Encode.{skip}
use pvxs.TypeDesc.Bytes.{count_members}

pub append-no_descs : (d : Descs) → append d no_descs ≡ d
append-no_descs no_descs = refl
append-no_descs (and_desc x xs) = ap (and_desc x) (append-no_descs xs)

pub append-append : (a b c : Descs) → append (append a b) c ≡ append a (append b c)
append-append no_descs b c = refl
append-append (and_desc x a) b c = ap (and_desc x) (append-append a b c)

count-append : (a b : Descs) → count (append a b) ≡ count a + count b
count-append no_descs b = omega arith
count-append (and_desc x a) b = omega (arith, count-append a b)

pub skip-append : (a b : Descs) → skip (count a) (append a b) ≡ b
skip-append no_descs b = refl
skip-append (and_desc x a) b = skip-append a b

-- The nodes of the children, behind `done`, and their entries in miter.
abbrev pub nodes : Bool → Descs → Members → Descs
nodes s done no_members = no_descs
nodes s done (and_member m ms) =
    let child = placed s (offset_of s done) (build_tree m) in
    append child (nodes s (append done child) ms)

abbrev pub entries : Bool → Descs → Members → Index
entries s done no_members = []
entries s done (and_member m ms) =
    (name_of m, offset_of s done)
    ∷ entries s (append done (placed s (offset_of s done) (build_tree m))) ms

pub length-entries :
    (ms : Members) (s : Bool) (done : Descs) → length (entries s done ms) ≡ count_members ms
length-entries no_members s done = refl
length-entries (and_member m ms) s done =
    ap suc (length-entries ms s (append done (placed s (offset_of s done) (build_tree m))))

pub build_children-nodes :
    (ms : Members) (s : Bool) (h : Head) (done : Descs)
    → (build_children s h done ms).1 ≡ append done (nodes s done ms)
unfolding build_tree
build_children-nodes no_members s h done = sym (append-no_descs done)
build_children-nodes (and_member m ms) s h done =
    let child = placed s (offset_of s done) (build_tree m) in
    build_children-nodes ms s (add_child s h (name_of m) (offset_of s done) (build_tree m))
      (append done child)
    ∙ append-append done child (nodes s (append done child) ms)

pub build_children-entries :
    (ms : Members) (s : Bool) (h : Head) (done : Descs)
    → let r = (build_children s h done ms).0 in
      (r.miter ≡ h.miter ++ entries s done ms) × (r.id ≡ h.id) × (r.code ≡ h.code)
unfolding build_tree add_child
build_children-entries no_members s h done = (sym (append-nil h.miter), refl, refl)
build_children-entries (and_member m ms) s h done =
    let child = placed s (offset_of s done) (build_tree m) in
    let h1 = add_child s h (name_of m) (offset_of s done) (build_tree m) in
    let (iter, id, code) = build_children-entries ms s h1 (append done child) in
    (
      iter
          ∙ append_assoc h.miter ((name_of m, offset_of s done) ∷ [])
              (entries s (append done child) ms),
      id,
      code,
    )

-- Of any nodes that are made, what holds of those of `build_tree` holds.
pub type_def-build_tree :
    (P : Descs → Type 0) (m : Member) (d : Descs) → type_def m ≡ some d → P (build_tree m) → P d
unfolding type_def
type_def-build_tree P m d =
    if-both (λ (o : Option Descs). o ≡ some d → P (build_tree m) → P d) (holds_assert m)
      (λ _ e h. subst P (some-injective _ _ e) h) (λ _ e h. absurd (none-ne-some _ e))
