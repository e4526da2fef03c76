-- ===== src/TypeDesc/Decode.antt =====
-- src/dataencode.cpp: `from_wire` of a type description, with its cache.
use pvxs.Prelude.{
  ℕ, zero, suc, Bool, true, false, not, ◌||◌, Option, none, some, List, [], ◌∷◌, ◌==◌,
  if◌then◌else◌,
}
use pvxs.Wire.Buffer.{In, in_fault}
use pvxs.Wire.Scalar.{from_wire_u8, from_wire_u16}
use pvxs.Wire.Size.{from_wire_size}
use pvxs.Wire.Text.{from_wire_str}
use pvxs.Wire.Header.{has}
use pvxs.TypeDesc.Code.{
  struct_code, null_code, scalar_of, is_simple, is_compound, is_compound_array,
}
use pvxs.TypeDesc.Tree.{
  Head, field_desc, Descs, no_descs, and_desc, new_head, append, single, set_parent, add_child,
  offset_of, placed, assemble,
}

abbrev pub TypeStore : Type 0
TypeStore = List (ℕ × Descs)

abbrev pub find : TypeStore → ℕ → Option Descs
find [] key = none
find (p ∷ ps) key = if p.0 == key then some p.1 else find ps key

-- `emplace` leaves a key that is there as it is.
abbrev pub insert_new : TypeStore → ℕ → Descs → Option Descs → TypeStore
insert_new cache key d none = (key, d) ∷ cache
insert_new cache key d (some old) = cache

abbrev pub emplace : TypeStore → ℕ → Descs → TypeStore
emplace cache key d = insert_new cache key d (find cache key)

abbrev pub is_none : Descs → Bool
is_none no_descs = true
is_none (and_desc x xs) = false

abbrev pub first_code_is : ℕ → Descs → Bool
first_code_is code no_descs = false
first_code_is code (and_desc (field_desc h ms) xs) = h.code == code

-- The buffer, the nodes that are appended, and the cache.
pub record Decoded : Type 0 where
  pub buf : In
  pub descs : Descs
  pub cache : TypeStore

abbrev pub faulted : In → Descs → TypeStore → Decoded
faulted b d cache = record { buf = in_fault b; descs = d; cache = cache }

abbrev pub decoded : In → Descs → TypeStore → Decoded
decoded b d cache = record { buf = b; descs = d; cache = cache }

-- A call on a child, at the next depth.
abbrev pub Recurse : Type 0
Recurse = TypeStore → In → Decoded

-- The loop over the children, and the node that it leaves.
unfoldable pub decode_children : Recurse → Bool → ℕ → Head → Descs → TypeStore → In → Decoded
unfolding add_child
decode_children rec in_struct zero h done cache b = decoded b (assemble in_struct h done) cache
decode_children rec in_struct (suc n) h done cache b =
    let name = from_wire_str [] b in
    let r = rec cache name.1 in
    let offset = offset_of in_struct done in
    let rest =
      decode_children rec in_struct n (add_child in_struct h name.0 offset r.descs)
        (append done (placed in_struct offset r.descs)) r.cache r.buf in
    if not r.buf.good || is_none r.descs
    then faulted r.buf (assemble in_struct h (append done r.descs)) r.cache
    else rest

abbrev pub fetch : Option Descs → In → TypeStore → Decoded
fetch none b cache = faulted b no_descs cache
fetch (some d) b cache =
    if not b.good || is_none d then faulted b no_descs cache else decoded b d cache

abbrev pub update_cache : Recurse → TypeStore → In → Decoded
update_cache rec cache b =
    let key = from_wire_u16 0 b in
    let r = rec cache key.1 in
    if not r.buf.good || is_none r.descs
    then faulted r.buf r.descs r.cache
    else decoded r.buf (set_parent 0 r.descs) (emplace r.cache key.0 r.descs)

unfoldable pub decode_array : Recurse → ℕ → TypeStore → In → Decoded
decode_array rec code cache b =
    let r = rec cache b in
    let d = single (new_head code) r.descs in
    if not r.buf.good || not (first_code_is (scalar_of code) r.descs)
    then faulted r.buf d r.cache
    else decoded r.buf d r.cache

unfoldable pub decode_compound : Recurse → ℕ → TypeStore → In → Decoded
unfolding decode_children
decode_compound rec code cache b =
    let id = from_wire_str [] b in
    let n = from_wire_size false 0 id.1 in
    decode_children rec (code == struct_code) n.0 (record (new_head code) { id = id.0 }) no_descs
      cache n.1

-- What follows the code.
unfoldable pub decode_code : Recurse → ℕ → TypeStore → In → Decoded
unfolding decode_compound decode_array
decode_code rec code cache b =
    if code == null_code
    then decoded b no_descs cache
    else (if code == 0xfd
        then update_cache rec cache b
        else (if code == 0xfe
            then (let key = from_wire_u16 0 b in fetch (find cache key.0) key.1 cache)
            else (if has code 0x10
                then faulted b no_descs cache
                else (if is_compound_array code
                    then decode_array rec code cache b
                    else (if is_compound code
                        then decode_compound rec code cache b
                        else (let d = single (new_head code) no_descs in
                            if is_simple (scalar_of code)
                            then decoded b d cache
                            else faulted b d cache))))))

-- `depth > maxNestingDepth` is the end of the fuel.
abbrev pub max_nesting_depth : ℕ
max_nesting_depth = 20

unfoldable pub decode : ℕ → Recurse
unfolding decode_code
decode zero cache b = faulted b no_descs cache
decode (suc depth) cache b =
    let code = from_wire_u8 null_code b in
    let rest = decode_code (decode depth) code.0 cache code.1 in
    if b.good then rest else faulted b no_descs cache

-- At depth 0.
unfoldable pub from_wire_type : Recurse
unfolding decode
from_wire_type = decode (suc max_nesting_depth)
