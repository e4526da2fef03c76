-- ===== src/TypeDesc/Exchange.antt =====
-- src/dataencode.cpp: descriptions that one side writes and the other reads, and the cache.
use pvxs.Prelude.{
  ℕ, ◌≤◌, ◌<◌, ◌^◌, ◌≡◌, refl, sym, ap, subst, ◌∙◌, Bool, true, false, none, some, List, ◌∷◌, ◌++◌,
  ==_refl, arith, append_assoc,
}
use pvxs.Wire.Buffer.{In, vector_out, fixed_in}
use pvxs.Wire.Scalar.{wire_bytes, host_be, from_wire_u16}
use pvxs.Wire.ScalarLaws.{from_wire-wire_bytes}
use pvxs.TypeDesc.Tree.{Descs, no_descs, set_parent, Member, build_tree, type_def}
use pvxs.TypeDesc.Decode.{
  decoded, TypeStore, Recurse, find, insert_new, emplace, is_none, fetch, update_cache, decode_code,
  decode, from_wire_type,
}
use pvxs.TypeDesc.Encode.{to_wire_type}
use pvxs.TypeDesc.Bytes.{type_bytes, depth, IsType}
use pvxs.TypeDesc.RoundTrip.{decode_member, decode-code}
use pvxs.TypeDesc.Children.{is_none-build_tree}
use pvxs.TypeDesc.Nodes.{write_member}
use pvxs.TypeDesc.Layout.{append-no_descs, type_def-build_tree}

from_wire_type-type_bytes :
    (be : Bool) (m : Member) (cache : TypeStore) (rest : List ℕ)
    → IsType m
    → depth m ≤ 21
    → from_wire_type cache (fixed_in be (type_bytes be m ++ rest))
      ≡ decoded (fixed_in be rest) (build_tree m) cache
unfolding from_wire_type decode
from_wire_type-type_bytes be m cache rest valid deep = decode_member be m 21 valid deep cache rest

build_tree-exchange :
    (be : Bool) (m : Member) (levels : ℕ)
    → IsType m
    → depth m ≤ levels
    → depth m ≤ 21
    → let out = to_wire_type levels (vector_out be) (build_tree m) in
      (out.good ≡ true)
      × ((cache : TypeStore) (rest : List ℕ)
          → from_wire_type cache (fixed_in be (out.written ++ rest))
            ≡ decoded (fixed_in be rest) (build_tree m) cache)
build_tree-exchange be m levels valid fits deep =
    let w =
      rw (append-no_descs (build_tree m)) at
        (write_member be m levels valid fits (vector_out be) false 0 no_descs (refl, refl, refl)) in
    (
      w.is_good,
      λ cache rest.
          subst
            (λ x.
              from_wire_type cache (fixed_in be (x ++ rest))
              ≡ decoded (fixed_in be rest) (build_tree m) cache)
            (sym w.appended) (from_wire_type-type_bytes be m cache rest valid deep),
    )

-- The nodes are written without a fault, and read back.
abbrev Exchanged : Bool → ℕ → Descs → Type 0
Exchanged be levels d =
    let out = to_wire_type levels (vector_out be) d in
    (out.good ≡ true)
    × ((cache : TypeStore) (rest : List ℕ)
        → from_wire_type cache (fixed_in be (out.written ++ rest))
          ≡ decoded (fixed_in be rest) d cache)

-- For a type of valid codes on which the assertion of build_tree holds, with at most 21 levels (an
-- array of a Struct or a Union is two) and with names, ids and numbers of children that fit in 32
-- bits, what to_wire writes to a growing buffer for the nodes of its TypeDef has no fault (with
-- fuel for as many levels), and from_wire gives back just these nodes, with their indices, lookups
-- and parents, leaving the cache and what follows alone.
pub from_wire_type-to_wire_type :
    (be : Bool) (m : Member) (levels : ℕ) (d : Descs)
    → type_def m ≡ some d
    → IsType m
    → depth m ≤ levels
    → depth m ≤ 21
    → let out = to_wire_type levels (vector_out be) d in
      (out.good ≡ true)
      × ((cache : TypeStore) (rest : List ℕ)
          → from_wire_type cache (fixed_in be (out.written ++ rest))
            ≡ decoded (fixed_in be rest) d cache)
from_wire_type-to_wire_type be m levels d made valid fits deep =
    type_def-build_tree (Exchanged be levels) m d made
      (build_tree-exchange be m levels valid fits deep)

-- The description that is sent under a key, and a reference to a key.
abbrev pub update_bytes : Bool → ℕ → Member → List ℕ
update_bytes be key m = 0xfd ∷ (wire_bytes be 2 key ++ type_bytes be m)

abbrev pub fetch_bytes : Bool → ℕ → List ℕ
fetch_bytes be key = 0xfe ∷ wire_bytes be 2 key

update_cache-reads :
    (rec : Recurse) (cache : TypeStore) (b b1 b2 : In) (key : ℕ) (d : Descs)
    → from_wire_u16 0 b ≡ (key, b1)
    → rec cache b1 ≡ decoded b2 d cache
    → b2.good ≡ true
    → is_none d ≡ false
    → update_cache rec cache b ≡ decoded b2 (set_parent 0 d) (emplace cache key d)
update_cache-reads rec cache b b1 b2 key d e1 e2 good full = rw (e1, e2, good, full) refl

from_wire_type-update_bytes :
    (be : Bool) (key : ℕ) (m : Member) (cache : TypeStore) (rest : List ℕ)
    → IsType m
    → depth m ≤ 20
    → key < 2 ^ 16
    → from_wire_type cache (fixed_in be (update_bytes be key m ++ rest))
      ≡ decoded (fixed_in be rest) (set_parent 0 (build_tree m)) (emplace cache key (build_tree m))
unfolding from_wire_type decode_code
from_wire_type-update_bytes be key m cache rest valid deep small =
    let k : List ℕ = wire_bytes be 2 key in
    let text = type_bytes be m in
    decode-code be 20 cache 0xfd ((k ++ text) ++ rest) (omega arith)
    ∙ ap (λ x. update_cache (decode 20) cache (fixed_in be x)) (append_assoc k text rest)
    ∙ update_cache-reads (decode 20) cache _ (fixed_in be (text ++ rest)) (fixed_in be rest) key
        (build_tree m) (from_wire-wire_bytes host_be be 2 0 key (text ++ rest) small)
        (decode_member be m 20 valid deep cache rest) refl (is_none-build_tree m)

fetch-reads :
    (be : Bool) (cache : TypeStore) (key : ℕ) (d : Descs) (rest : List ℕ)
    → key < 2 ^ 16
    → find cache key ≡ some d
    → is_none d ≡ false
    → from_wire_type cache (fixed_in be (fetch_bytes be key ++ rest))
      ≡ decoded (fixed_in be rest) d cache
unfolding from_wire_type decode_code
fetch-reads be cache key d rest small e full =
    decode-code be 20 cache 0xfe (wire_bytes be 2 key ++ rest) (omega arith)
    ∙ ap (λ r. fetch (find cache r.0) r.1 cache)
        (from_wire-wire_bytes host_be be 2 0 key rest small)
    ∙ rw (e, full) refl

build_tree-fetch :
    (be : Bool) (key : ℕ) (m : Member) (cache : TypeStore) (rest rest' : List ℕ)
    → IsType m
    → depth m ≤ 20
    → key < 2 ^ 16
    → find cache key ≡ none
    → let r = from_wire_type cache (fixed_in be (update_bytes be key m ++ rest)) in
      (r.buf ≡ fixed_in be rest)
      × (r.descs ≡ set_parent 0 (build_tree m))
      × (from_wire_type r.cache (fixed_in be (fetch_bytes be key ++ rest'))
          ≡ decoded (fixed_in be rest') (build_tree m) r.cache)
build_tree-fetch be key m cache rest rest' valid deep small new =
    let d = build_tree m in
    let e = from_wire_type-update_bytes be key m cache rest valid deep small in
    let kept : emplace cache key d ≡ (key, d) ∷ cache = ap (insert_new cache key d) new in
    let found : find (emplace cache key d) key ≡ some d = rw kept (rw (==_refl key) refl) in
    (
      ap (λ r. r.buf) e,
      ap (λ r. r.descs) e,
      subst
          (λ c.
            from_wire_type c (fixed_in be (fetch_bytes be key ++ rest'))
            ≡ decoded (fixed_in be rest') d c)
          (sym (ap (λ r. r.cache) e))
          (fetch-reads be (emplace cache key d) key d rest' small found (is_none-build_tree m)),
    )

-- The nodes are read, and again by a reference to the key.
abbrev Fetched : Bool → ℕ → Member → TypeStore → List ℕ → List ℕ → Descs → Type 0
Fetched be key m cache rest rest' d =
    let r = from_wire_type cache (fixed_in be (update_bytes be key m ++ rest)) in
    (r.buf ≡ fixed_in be rest)
    × (r.descs ≡ set_parent 0 d)
    × (from_wire_type r.cache (fixed_in be (fetch_bytes be key ++ rest'))
        ≡ decoded (fixed_in be rest') d r.cache)

-- A type of valid codes on which the assertion of build_tree holds, with at most 20 levels and
-- with names, ids and numbers of children that fit in 32 bits, that comes with a new 16-bit key of
-- the cache is read as the nodes of its TypeDef, and a later reference to the key, in a message of
-- the same byte order, gives the same nodes again.
pub fetch-update_cache :
    (be : Bool) (key : ℕ) (m : Member) (d : Descs) (cache : TypeStore) (rest rest' : List ℕ)
    → type_def m ≡ some d
    → IsType m
    → depth m ≤ 20
    → key < 2 ^ 16
    → find cache key ≡ none
    → let r = from_wire_type cache (fixed_in be (update_bytes be key m ++ rest)) in
      (r.buf ≡ fixed_in be rest)
      × (r.descs ≡ set_parent 0 d)
      × (from_wire_type r.cache (fixed_in be (fetch_bytes be key ++ rest'))
          ≡ decoded (fixed_in be rest') d r.cache)
fetch-update_cache be key m d cache rest rest' made valid deep small new =
    type_def-build_tree (Fetched be key m cache rest rest') m d made
      (build_tree-fetch be key m cache rest rest' valid deep small new)
