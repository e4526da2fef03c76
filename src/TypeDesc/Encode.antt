-- ===== src/TypeDesc/Encode.antt =====
-- src/dataencode.cpp: `to_wire` of a type description. A FieldDesc* is the nodes of the vector from
-- there on, and none for null.
use pvxs.Prelude.{ℕ, zero, suc, [], ◌∷◌, ◌==◌, length, if◌then◌else◌}
use pvxs.Wire.Buffer.{Out, out_fault}
use pvxs.Wire.Scalar.{to_wire_u8}
use pvxs.Wire.Size.{to_wire_size}
use pvxs.Wire.Text.{to_wire_str}
use pvxs.TypeDesc.Code.{struct_code, union_code, null_code, is_compound_array}
use pvxs.TypeDesc.Tree.{Index, Head, Descs, no_descs, and_desc, field_desc}

-- `cur + n`
abbrev pub skip : ℕ → Descs → Descs
skip zero d = d
skip (suc n) no_descs = no_descs
skip (suc n) (and_desc x xs) = skip n xs

-- The loop over `miter`, with the nodes that its offsets count from.
unfoldable pub write_fields : (Out → Descs → Out) → Descs → Index → Out → Out
write_fields rec base [] b = b
write_fields rec base (p ∷ ps) b =
    write_fields rec base ps (rec (to_wire_str b p.0) (skip p.1 base))

abbrev pub write_compound : (Out → Descs → Out) → Head → Descs → Out → Out
write_compound rec h base b =
    write_fields rec base h.miter (to_wire_size (to_wire_str b h.id) (length h.miter))

unfoldable pub write_node : (Out → Descs → Out) → Head → Descs → Descs → Out → Out
unfolding write_fields
write_node rec h members cur b =
    if is_compound_array h.code
    then rec b members
    else (if h.code == struct_code
        then write_compound rec h cur b
        else (if h.code == union_code then write_compound rec h members b else b))

-- On fuel, one for each level of the description; a fault is out of fuel.
unfoldable pub to_wire_type : ℕ → Out → Descs → Out
unfolding write_node
to_wire_type zero b cur = out_fault b
to_wire_type (suc fuel) b no_descs = to_wire_u8 b null_code
to_wire_type (suc fuel) b (and_desc (field_desc h members) xs) =
    write_node (to_wire_type fuel) h members (and_desc (field_desc h members) xs)
      (to_wire_u8 b h.code)
