-- ===== src/PvRequest/Mask.antt =====
-- src/pvrequest.cpp: request2mask and testmask. A pointer to a FieldDesc is the nodes from it on; none
-- are those of an empty Value.
use pvxs.Prelude.{
  ℕ, zero, suc, ◌+◌, Bool, true, false, ◌&&◌, ◌||◌, not, Option, none, some, List, [], ◌∷◌, map,
  ◌==◌, if◌then◌else◌,
}
use pvxs.BitMask.{BitMask, get, assign, assign_all, of_bits, find_set}
use pvxs.TypeDesc.Code.{struct_code}
use pvxs.TypeDesc.Tree.{Name, Index, same_name, field_desc, Descs, no_descs, and_desc, size}

-- `desc + n`
abbrev pub node_at : ℕ → Descs → Descs
node_at zero ds = ds
node_at (suc n) no_descs = no_descs
node_at (suc n) (and_desc d ds) = node_at n ds

abbrev pub is_struct : Descs → Bool
is_struct no_descs = false
is_struct (and_desc (field_desc h ms) ds) = h.code == struct_code

abbrev pub is_valid : Descs → Bool
is_valid no_descs = false
is_valid (and_desc d ds) = true

abbrev pub mlookup : Descs → Index
mlookup no_descs = []
mlookup (and_desc (field_desc h ms) ds) = h.mlookup

abbrev pub size_of : Descs → ℕ
size_of no_descs = 0
size_of (and_desc d ds) = size d

abbrev pub is_empty : Index → Bool
is_empty [] = true
is_empty (p ∷ ps) = false

-- `mlookup.find`
abbrev pub find : Name → Index → Option ℕ
find name [] = none
find name ((n, i) ∷ ps) = if same_name n name then some i else find name ps

-- The offsets of a sub-structure's fields, from the node of the whole structure.
abbrev pub offsets : ℕ → Index → List ℕ
offsets k ps = map (λ p. k + p.1) ps

abbrev pub range : ℕ → ℕ → List ℕ
range start zero = []
range start (suc n) = start ∷ range (suc start) n

module _ (desc : Descs) where
  -- Whether the request of a sub-structure is for all of it.
  abbrev pub takes_all : Descs → ℕ → Bool
  takes_all request k = is_empty (mlookup request) && is_struct (node_at k desc)

  abbrev pub select_found : Descs → BitMask × Bool → Option ℕ → BitMask × Bool
  select_found request r none = r
  select_found request r (some k) = (
    if takes_all request k
        then assign_all (assign r.0 k true) (offsets k (mlookup (node_at k desc)))
        else assign r.0 k true,
    true,
  )

  -- A field of the request, as the name and the node.
  abbrev pub select : Name → Descs → BitMask × Bool → BitMask × Bool
  select name request r =
      if is_struct request then select_found request r (find name (mlookup desc)) else r

  -- The loop over the fields of the request.
  unfoldable pub select_all : Descs → Index → BitMask × Bool → BitMask × Bool
  select_all fields [] r = r
  select_all fields ((name, i) ∷ ps) r = select_all fields ps (select name (node_at i fields) r)

  abbrev pub fill_if_empty : BitMask → Option ℕ → BitMask
  fill_if_empty m none = m
  fill_if_empty m (some r) = if r == m.size then assign_all m (range 0 (size_of desc)) else m

  abbrev pub finish : BitMask × Bool → Option BitMask
  finish (m, found) = if found then some (fill_if_empty m (find_set m 1)) else none

  -- `fields` is the node of pvRequest["field"]; `none` is the exception.
  unfoldable pub request2mask : Descs → Option BitMask
  unfolding select_all
  request2mask fields =
      let start = of_bits (0 ∷ []) (size_of desc) in
      if is_struct fields
      then (let r = select_all fields (mlookup fields) (start, false) in
          finish (r.0, is_empty (mlookup fields) || r.1))
      else finish (start, not (is_valid fields))

abbrev pub marked : List Bool → BitMask → ℕ → Bool
marked [] mask i = false
marked (v ∷ vs) mask i = (v && get mask i) || marked vs mask (suc i)

-- An update is its type and which of its fields are marked, in the order of the nodes.
unfoldable pub testmask : Descs → List Bool → BitMask → Bool
testmask desc [] mask = false
testmask desc (v ∷ vs) mask = (v && get mask 0) || (is_struct desc && marked vs mask 1)
