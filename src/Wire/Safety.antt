-- ===== src/Wire/Safety.antt =====
-- src/pvaproto.h and src/dataencode.cpp: what the writers leave of a buffer.
use pvxs.Prelude.Int.{ℤ, pos, negsuc}
use pvxs.Prelude.{
  zero, suc, if-both, ◌==◌, ℕ, ◌≤◌, ◌+◌, ◌≡◌, refl, ◌∙◌, inl, Bool, true, false, List, [], arith,
  length, length-append, if◌then◌else◌, Bool-cases, leb, ltb, inr, ◌∷◌,
}
use pvxs.Wire.Buffer.{Out, ensure, copy, put_bytes, out_fault}
use pvxs.Wire.Scalar.{to_wire, to_wire_u8, host_be}
use pvxs.Wire.TextLaws.{is_plain}
use pvxs.Wire.Size.{push, to_wire_size, to_wire_selector}
use pvxs.Wire.Text.{Status, c_str, to_wire_str, to_wire_status}
use pvxs.TypeDesc.Code.{struct_code, union_code, is_compound_array}
use pvxs.TypeDesc.Tree.{Head, Index, Descs, no_descs, and_desc, field_desc}
use pvxs.TypeDesc.Encode.{skip, write_fields, write_compound, write_node, to_wire_type}
use pvxs.Wire.Header.{Header, header_flags, header_version, to_wire_header}

-- From `b` to `c`: a fixed buffer keeps its size, and a buffer with a fault is left alone.
pub record Bounded (b c : Out) : Type 0 where
  pub same_kind : c.grows ≡ b.grows
  pub same_size : b.grows ≡ false → length c.written + c.room ≡ length b.written + b.room
  pub stopped : b.good ≡ false → (c.good ≡ false) × (c.written ≡ b.written)

Bounded-trans : {b c d : Out} → Bounded b c → Bounded c d → Bounded b d
Bounded-trans v w = record {
  same_kind = w.same_kind ∙ v.same_kind;
  same_size = λ h. w.same_size (v.same_kind ∙ h) ∙ v.same_size h;
  stopped = λ h. ((w.stopped (v.stopped h).0).0, (w.stopped (v.stopped h).0).1 ∙ (v.stopped h).1);
}

put_bytes-Bounded : (b : Out) (bs : List ℕ) → Bounded b (put_bytes b bs)
unfolding put_bytes
put_bytes-Bounded b bs = record {
  same_kind = ground arith;
  same_size = λ h. ground (arith, length-append b.written bs);
  stopped = λ h. (ground arith, ground arith);
}

copy-Bounded : {b : Out} (bs : List ℕ) → b.good ≡ true → length bs ≤ b.room → Bounded b (copy b bs)
copy-Bounded {b} bs g h = record {
  same_kind = refl;
  same_size = λ _. omega (arith, length-append b.written bs);
  stopped = λ f. cc;
}

out_fault-Bounded : (b : Out) → Bounded b (out_fault b)
out_fault-Bounded b = record {
  same_kind = refl;
  same_size = λ _. refl;
  stopped = λ _. (refl, refl);
}

ensure-Bounded : (b : Out) (n : ℕ) → Bounded b (ensure b n).0
unfolding ensure
ensure-Bounded b n = record {
  same_kind = ground arith;
  same_size = λ h. ground arith;
  stopped = λ h. (ground arith, ground arith);
}

ensure-true :
    (b : Out) (n : ℕ)
    → (ensure b n).1 ≡ true
    → ((ensure b n).0.good ≡ true) × (n ≤ (ensure b n).0.room)
unfolding ensure
ensure-true b n h = (ground arith, ground arith)

-- The rule for a writer that ensures room first.
ensure_then :
    (b : Out) (n : ℕ) (k : Out → Out)
    → ((c : Out) → c.good ≡ true → n ≤ c.room → Bounded c (k c))
    → Bounded b (if (ensure b n).1 then k (ensure b n).0 else out_fault (ensure b n).0)
ensure_then b n k h = elim (Bool-cases (ensure b n).1) [
  | inl e ↦
      rw e (Bounded-trans (ensure-Bounded b n) (h _ (ensure-true b n e).0 (ensure-true b n e).1))
  | inr e ↦ rw e (Bounded-trans (ensure-Bounded b n) (out_fault-Bounded _))
]

to_wire-Bounded : (h : Bool) (n : ℕ) (b : Out) (v : ℕ) → Bounded b (to_wire h n b v)
unfolding to_wire
to_wire-Bounded h n b v = put_bytes-Bounded b _

long_size-Bounded :
    (b : Out) (n : ℕ)
    → b.good ≡ true
    → 1 ≤ b.room
    → Bounded b (if leb n 0xffff_ffff then to_wire host_be 4 (push b 254) n else out_fault b)
long_size-Bounded b n g h = elim (Bool-cases (leb n 0xffff_ffff)) [
  | inl e ↦ rw e (Bounded-trans (copy-Bounded (254 ∷ []) g h) (to_wire-Bounded host_be 4 _ n))
  | inr e ↦ rw e (out_fault-Bounded b)
]

size_tail-Bounded :
    (b : Out) (n : ℕ)
    → b.good ≡ true
    → 1 ≤ b.room
    → Bounded b (
        if ltb n 254
        then push b n
        else (if leb n 0xffff_ffff then to_wire host_be 4 (push b 254) n else out_fault b))
size_tail-Bounded b n g h = elim (Bool-cases (ltb n 254)) [
  | inl e ↦ rw e (copy-Bounded (n ∷ []) g h)
  | inr e ↦ rw e (long_size-Bounded b n g h)
]

to_wire_size-Bounded : (b : Out) (n : ℕ) → Bounded b (to_wire_size b n)
unfolding to_wire_size
to_wire_size-Bounded b n = ensure_then b 1 _ (λ c g h. size_tail-Bounded c n g h)

to_wire_selector-Bounded : (b : Out) (sel : ℤ) → Bounded b (to_wire_selector b sel)
unfolding to_wire_selector
to_wire_selector-Bounded b (pos n) = ensure_then b 1 _ (λ c g h. size_tail-Bounded c n g h)
to_wire_selector-Bounded b (negsuc n) = ensure_then b 1 _ (λ c g h. copy-Bounded (255 ∷ []) g h)

to_wire_str-Bounded : (b : Out) (s : List ℕ) → Bounded b (to_wire_str b s)
unfolding to_wire_str
to_wire_str-Bounded b s =
    Bounded-trans (to_wire_size-Bounded b (length s))
      (ensure_then _ (length s) (λ c. copy c s) (λ c g h. copy-Bounded s g h))

status_tail-Bounded :
    (b : Out) (s : Status)
    → b.good ≡ true
    → 1 ≤ b.room
    → Bounded b (
        if is_plain s
        then push b 255
        else to_wire_str (to_wire_str (push b s.code) (c_str s.msg)) (c_str s.trace))
status_tail-Bounded b s g h = elim (Bool-cases (is_plain s)) [
  | inl e ↦ rw e (copy-Bounded (255 ∷ []) g h)
  | inr e ↦
      let body =
        Bounded-trans (to_wire_str-Bounded _ (c_str s.msg))
          (to_wire_str-Bounded _ (c_str s.trace)) in
      rw e (Bounded-trans (copy-Bounded (s.code ∷ []) g h) body)
]

to_wire_status-Bounded : (b : Out) (s : Status) → Bounded b (to_wire_status b s)
unfolding to_wire_status
to_wire_status-Bounded b s = ensure_then b 1 _ (λ c g h. status_tail-Bounded c s g h)

to_wire_header-Bounded : (b : Out) (h : Header) → Bounded b (to_wire_header b h)
unfolding to_wire_header
to_wire_header-Bounded b h =
    let front : List ℕ = 0xca ∷ header_version h.flags ∷ header_flags b.be h.flags ∷ h.cmd ∷ [] in
    ensure_then b 8 (λ c. to_wire host_be 4 (copy c front) h.len)
      λ c g r.
        Bounded-trans (copy-Bounded front g (omega (arith, r)))
          (to_wire-Bounded host_be 4 (copy c front) h.len)

Bounded-refl : (b : Out) → Bounded b b
Bounded-refl b = record { same_kind = refl; same_size = λ _. refl; stopped = λ h. (h, refl) }

-- The writer of the descriptions below a node.
abbrev Safe : (Out → Descs → Out) → Type 0
Safe rec = (b : Out) (d : Descs) → Bounded b (rec b d)

write_fields-Bounded :
    (rec : Out → Descs → Out)
    → Safe rec
    → (base : Descs) (i : Index) (b : Out) → Bounded b (write_fields rec base i b)
unfolding write_fields
write_fields-Bounded rec safe base [] b = Bounded-refl b
write_fields-Bounded rec safe base (p ∷ ps) b =
    Bounded-trans (Bounded-trans (to_wire_str-Bounded b p.0) (safe _ (skip p.1 base)))
      (write_fields-Bounded rec safe base ps _)

write_compound-Bounded :
    (rec : Out → Descs → Out)
    → Safe rec
    → (h : Head) (base : Descs) (b : Out) → Bounded b (write_compound rec h base b)
write_compound-Bounded rec safe h base b =
    Bounded-trans
      (Bounded-trans (to_wire_str-Bounded b h.id) (to_wire_size-Bounded _ (length h.miter)))
      (write_fields-Bounded rec safe base h.miter _)

write_node-Bounded :
    (rec : Out → Descs → Out)
    → Safe rec
    → (h : Head) (members cur : Descs) (b : Out) → Bounded b (write_node rec h members cur b)
unfolding write_node
write_node-Bounded rec safe h members cur b =
    if-both (Bounded b) (is_compound_array h.code) (λ _. safe b members)
      (λ _.
        if-both (Bounded b) (h.code == struct_code) (λ _. write_compound-Bounded rec safe h cur b)
          (λ _.
            if-both (Bounded b) (h.code == union_code)
              (λ _. write_compound-Bounded rec safe h members b) (λ _. Bounded-refl b)))

to_wire_type-Bounded : (fuel : ℕ) → Safe (to_wire_type fuel)
unfolding to_wire_type
to_wire_type-Bounded zero b d = out_fault-Bounded b
to_wire_type-Bounded (suc fuel) b no_descs = put_bytes-Bounded b _
to_wire_type-Bounded (suc fuel) b (and_desc (field_desc h ms) xs) =
    Bounded-trans (put_bytes-Bounded b _)
      (write_node-Bounded (to_wire_type fuel) (to_wire_type-Bounded fuel) h ms _ _)

-- The writers of scalars, single bytes, sizes, selectors, strings, status, headers and type
-- descriptions keep to the size of a fixed buffer, and write nothing after a fault.
pub writers-Bounded :
    (b : Out)
    → ((h : Bool) (n v : ℕ) → Bounded b (to_wire h n b v))
      × ((n : ℕ) → Bounded b (to_wire_size b n))
      × ((sel : ℤ) → Bounded b (to_wire_selector b sel))
      × ((s : List ℕ) → Bounded b (to_wire_str b s))
      × ((s : Status) → Bounded b (to_wire_status b s))
      × ((h : Header) → Bounded b (to_wire_header b h))
      × ((v : ℕ) → Bounded b (to_wire_u8 b v))
      × ((levels : ℕ) (d : Descs) → Bounded b (to_wire_type levels b d))
writers-Bounded b = (
  λ h n v. to_wire-Bounded h n b v,
  to_wire_size-Bounded b,
  to_wire_selector-Bounded b,
  to_wire_str-Bounded b,
  to_wire_status-Bounded b,
  to_wire_header-Bounded b,
  λ v. put_bytes-Bounded b (v ∷ []),
  λ levels d. to_wire_type-Bounded levels b d,
)
