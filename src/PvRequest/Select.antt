-- ===== src/PvRequest/Select.antt =====
-- src/pvrequest.cpp: the fields that request2mask selects.
use pvxs.Prelude.{
  ℕ, suc, ◌^◌, ◌≤◌, ◌<◌, ◌≡◌, ◌≢◌, refl, sym, ap, ◌∙◌, Bool, true, false, true≢false, ◌&&◌, ◌||◌,
  not, Option, none, some, List, [], ◌∷◌, ◌==◌, ==_iff, is_none, Option-cases, Bool-cases, inl, inr,
  if◌then◌else◌, if-both, All, arith,
}
use pvxs.BitMask.{BitMask, get, assign, of_bits, find_set}
use pvxs.BitMask.Search.{find_set-Finds}
use pvxs.TypeDesc.Tree.{Name, Index, same_name, Descs}
use pvxs.PvRequest.Mask.{
  node_at, is_struct, is_valid, mlookup, size_of, is_empty, find, offsets, range, takes_all,
  select_found, select, select_all, fill_if_empty, finish, request2mask, marked, testmask,
}
use pvxs.PvRequest.Bits.{
  member, IsMask, assign_lem, assign_all_lem, top_lem, range-lt, member-range,
}

-- The offsets that a type holds are below its size.
abbrev pub InRange : Descs → Type 0
InRange desc =
    All
      (λ p.
        (p.1 < size_of desc)
        × All (λ b. b < size_of desc) (offsets p.1 (mlookup (node_at p.1 desc))))
      (mlookup desc)

module _ (desc : Descs) where
  -- What one field of a request chooses.
  abbrev pub chosen_by : Descs → Option ℕ → ℕ → Bool
  chosen_by request none j = false
  chosen_by request (some k) j =
      k == j || (takes_all desc request k && member j (offsets k (mlookup (node_at k desc))))

  abbrev pub chosen_in : Descs → Index → ℕ → Bool
  chosen_in fields [] j = false
  chosen_in fields ((name, i) ∷ ps) j =
      (is_struct (node_at i fields) && chosen_by (node_at i fields) (find name (mlookup desc)) j)
      || chosen_in fields ps j

  -- Whether the request names a field, or a sub-structure that has it and all of which is meant.
  abbrev pub is_chosen : Descs → ℕ → Bool
  is_chosen fields j = is_struct fields && chosen_in fields (mlookup fields) j

  abbrev Fits : Option ℕ → Type 0
  Fits none = Unit
  Fits (some k) =
      (k < size_of desc) × All (λ b. b < size_of desc) (offsets k (mlookup (node_at k desc)))

  find-Fits : (name : Name) (ps : Index) → All (λ p. Fits (some p.1)) ps → Fits (find name ps)
  find-Fits name [] h = tt
  find-Fits name ((n, i) ∷ ps) h =
      if-both Fits (same_name n name) {x = some i} {y = find name ps} (λ _. h.0)
        (λ _. find-Fits name ps h.1)

  -- A mask with the bits of another, and those chosen.
  abbrev Adds : (ℕ → Bool) → BitMask → BitMask → Type 0
  Adds c m m' = IsMask (size_of desc) m' × ((j : ℕ) → get m' j ≡ (c j || get m j))

  select_found-Adds :
      (request : Descs) (o : Option ℕ) (r : BitMask × Bool)
      → Fits o
      → IsMask (size_of desc) r.0
      → Adds (chosen_by request o) r.0 (select_found desc request r o).0
  select_found-Adds request none r f k = (k, λ j. refl)
  select_found-Adds request (some k) r f h =
      let (k1, g1) = assign_lem (size_of desc) r.0 k f.0 h in
      let (k2, g2) =
        assign_all_lem (size_of desc) (offsets k (mlookup (node_at k desc))) (assign r.0 k true) f.1
          k1 in
      elim (Bool-cases (takes_all desc request k)) [
        | inl e ↦ rw e (k2, λ j. g2 j ∙ ground (arith, g1 j))
        | inr e ↦ rw e (k1, λ j. g1 j ∙ ground arith)
      ]

  select-Adds :
      (name : Name) (request : Descs) (r : BitMask × Bool)
      → InRange desc
      → IsMask (size_of desc) r.0
      → Adds
          (λ j. is_struct request && chosen_by request (find name (mlookup desc)) j)
          r.0
          (select desc name request r).0
  select-Adds name request r f k =
      let o = find name (mlookup desc) in
      elim (is_struct request)
        as (λ b.
          Adds (λ j. b && chosen_by request o j) r.0
            (if b then select_found desc request r o else r).0) [
              | true ↦ select_found-Adds request o r (find-Fits name (mlookup desc) f) k
              | false ↦ (k, λ j. refl)
            ]

  select_all-Adds :
      (fields : Descs) (ps : Index) (r : BitMask × Bool)
      → InRange desc
      → IsMask (size_of desc) r.0
      → Adds (chosen_in fields ps) r.0 (select_all desc fields ps r).0
  unfolding select_all
  select_all-Adds fields [] r f k = (k, λ j. refl)
  select_all-Adds fields ((name, i) ∷ ps) r f k =
      let (k1, g1) = select-Adds name (node_at i fields) r f k in
      let (k2, g2) = select_all-Adds fields ps (select desc name (node_at i fields) r) f k1 in
      (k2, λ j. g2 j ∙ ground (arith, g1 j))

  -- The mask before it is filled: the top bit, and those chosen.
  abbrev Picks : (ℕ → Bool) → BitMask → Type 0
  Picks c m = IsMask (size_of desc) m × ((j : ℕ) → get m j ≡ (0 == j || c j))

  fill-kept :
      (c : ℕ → Bool) (m : BitMask) (i : ℕ)
      → Picks c m
      → 1 ≤ i
      → i < size_of desc
      → c i ≡ true
      → fill_if_empty desc m (find_set m 1) ≡ m
  fill-kept c m i (k, g) lo hi e =
      let (r, at, f) = find_set-Finds m 1 k.0 in
      rw at (
        if-both (λ x. x ≡ m) (r == m.size)
          (λ d.
            let full : r ≡ m.size = (==_iff r m.size).0 d in
            let set : get m i ≡ true = ground (arith, g i) in
            absurd (
              true≢false
                (sym set ∙ f.none_before i lo (omega (arith, full, k.1)) (omega (arith, k.1)))))
          (λ _. refl))

  fill-all :
      (c : ℕ → Bool) (m : BitMask) (j : ℕ)
      → Picks c m
      → ((i : ℕ) → 1 ≤ i → c i ≡ false)
      → j < size_of desc
      → get (fill_if_empty desc m (find_set m 1)) j ≡ true
  fill-all c m j (k, g) nothing h =
      let (r, at, f) = find_set-Finds m 1 k.0 in
      let (_, all) =
        assign_all_lem (size_of desc) (range 0 (size_of desc)) m
          (range-lt 0 (size_of desc) (size_of desc) (omega arith)) k in
      rw at (
        if-both (λ x. get x j ≡ true) (r == m.size)
          (λ _. all j ∙ ground (arith, member-range j 0 (size_of desc)))
          (λ d.
            let past : r ≢ m.size = (λ p. ground arith) in
            let set : get m r ≡ true = f.is_set past in
            let some_bit : 1 ≤ r = omega (arith, f.forward, k.1) in
            absurd (ground (arith, g r, nothing r some_bit))))

  finish-Picks :
      (c : ℕ → Bool) (r : BitMask × Bool) (m : BitMask)
      → finish desc r ≡ some m
      → Picks c r.0
      → ((i : ℕ) → 1 ≤ i → i < size_of desc → c i ≡ true → (j : ℕ) → get m j ≡ (0 == j || c j))
        × (((i : ℕ) → 1 ≤ i → c i ≡ false) → (j : ℕ) → j < size_of desc → get m j ≡ true)
  finish-Picks c (m0, false) m e k = cc
  finish-Picks c (m0, true) m e k =
      let filled : fill_if_empty desc m0 (find_set m0 1) ≡ m = cc in
      (
        λ i lo hi on j. rw (← filled) (rw (fill-kept c m0 i k lo hi on) (k.1 j)),
        λ none_on j h. rw (← filled) (fill-all c m0 j k none_on h),
      )

  -- What is claimed of a mask, by what is chosen.
  abbrev pub IsSelection : (ℕ → Bool) → BitMask → Type 0
  IsSelection c m =
      ((i : ℕ) → 1 ≤ i → i < size_of desc → c i ≡ true → (j : ℕ) → get m j ≡ (0 == j || c j))
      × (((i : ℕ) → 1 ≤ i → c i ≡ false) → (j : ℕ) → j < size_of desc → get m j ≡ true)

  finish_if :
      (b : Bool) (fields : Descs) (top m : BitMask)
      → InRange desc
      → IsMask (size_of desc) top
      → ((j : ℕ) → get top j ≡ (0 == j))
      → (if b
          then (let r = select_all desc fields (mlookup fields) (top, false) in
              finish desc (r.0, is_empty (mlookup fields) || r.1))
          else finish desc (top, not (is_valid fields)))
        ≡ some m
      → IsSelection (λ j. b && chosen_in fields (mlookup fields) j) m
  finish_if true fields top m f k g e =
      let r = select_all desc fields (mlookup fields) (top, false) in
      let (k1, g1) = select_all-Adds fields (mlookup fields) (top, false) f k in
      finish-Picks (chosen_in fields (mlookup fields)) (r.0, is_empty (mlookup fields) || r.1) m e
        (k1, λ j. g1 j ∙ ground (arith, g j))
  finish_if false fields top m f k g e =
      finish-Picks (λ j. false) (top, not (is_valid fields)) m e (k, λ j. g j ∙ ground arith)

  -- Whether some field of the request names one of the type.
  abbrev pub finds_any : Descs → Index → Bool
  finds_any fields [] = false
  finds_any fields ((name, i) ∷ ps) =
      (is_struct (node_at i fields) && not (is_none (find name (mlookup desc))))
      || finds_any fields ps

  -- A request with no `field`, with an empty one, or with a name of the type in it.
  abbrev pub is_accepted : Descs → Bool
  is_accepted fields =
      if is_struct fields
      then is_empty (mlookup fields) || finds_any fields (mlookup fields)
      else not (is_valid fields)

  select-found :
      (name : Name) (request : Descs) (r : BitMask × Bool)
      → (select desc name request r).1
        ≡ ((is_struct request && not (is_none (find name (mlookup desc)))) || r.1)
  select-found name request r =
      elim (find name (mlookup desc))
        as (λ o.
          (if is_struct request then select_found desc request r o else r).1
          ≡ ((is_struct request && not (is_none o)) || r.1)) [
            | none ↦ ground arith
            | some k ↦ ground arith
          ]

  select_all-found :
      (fields : Descs) (ps : Index) (r : BitMask × Bool)
      → (select_all desc fields ps r).1 ≡ (finds_any fields ps || r.1)
  unfolding select_all
  select_all-found fields [] r = refl
  select_all-found fields ((name, i) ∷ ps) r =
      select_all-found fields ps (select desc name (node_at i fields) r)
      ∙ ground (arith, select-found name (node_at i fields) r)

  request2mask-accepted :
      (fields : Descs) → is_none (request2mask desc fields) ≡ not (is_accepted fields)
  unfolding request2mask
  request2mask-accepted fields =
      let top = of_bits (0 ∷ []) (size_of desc) in
      let found = select_all-found fields (mlookup fields) (top, false) in ground (arith, found)

  selected :
      (fields : Descs) (m : BitMask)
      → 0 < size_of desc
      → size_of desc < 2 ^ 16
      → InRange desc
      → request2mask desc fields ≡ some m
      → IsSelection (is_chosen fields) m
  unfolding request2mask
  selected fields m pos lt f e =
      let (k, g) = top_lem (size_of desc) pos lt in
      finish_if (is_struct fields) fields (of_bits (0 ∷ []) (size_of desc)) m f k g e

  -- For a type of fewer than 2^16 nodes whose offsets are below its size, request2mask throws just
  -- where the field of the request is no structure, or has fields of which none is a structure
  -- named as a field of the type; otherwise it gives a mask, which has the top bit, the bits of
  -- the fields named, and those of the fields of a sub-structure that is asked for as a whole, or,
  -- where these are the top bit alone, every bit.
  pub request2mask-selects :
      (fields : Descs)
      → 0 < size_of desc
      → size_of desc < 2 ^ 16
      → InRange desc
      → (is_accepted fields ≡ false → request2mask desc fields ≡ none)
        × (is_accepted fields ≡ true
            → (m : BitMask) × (request2mask desc fields ≡ some m)
              × IsSelection (is_chosen fields) m)
  request2mask-selects fields pos lt f =
      let accepted = request2mask-accepted fields in
      elim (Option-cases (request2mask desc fields)) [
        | inl e ↦ (λ _. e, λ a. absurd (true≢false (sym (ap is_none e) ∙ accepted ∙ ap not a)))
        | inr (m, e) ↦ (
          λ a. absurd (true≢false (sym (accepted ∙ ap not a) ∙ ap is_none e)),
          λ _. (m, e, selected fields m pos lt f e),
        )
      ]

  -- Whether a field that is marked is one of some.
  abbrev pub marks_any : (ℕ → Bool) → List Bool → ℕ → Bool
  marks_any c [] i = false
  marks_any c (v ∷ vs) i = (v && c i) || marks_any c vs (suc i)

  marked_lem :
      (c : ℕ → Bool) (m : BitMask) (vs : List Bool) (i : ℕ)
      → 1 ≤ i
      → ((j : ℕ) → get m j ≡ (0 == j || c j))
      → marked vs m i ≡ marks_any c vs i
  marked_lem c m [] i h g = refl
  marked_lem c m (v ∷ vs) i h g = ground (arith, g i, marked_lem c m vs (suc i))

  -- With the mask of a request that chooses some field below the top, an update passes testmask
  -- just where it marks the top, or is of a structure and marks a field that is chosen.
  pub testmask-request2mask :
      (fields : Descs) (m : BitMask) (i : ℕ) (v : Bool) (vs : List Bool)
      → size_of desc < 2 ^ 16
      → InRange desc
      → request2mask desc fields ≡ some m
      → 1 ≤ i
      → i < size_of desc
      → is_chosen fields i ≡ true
      → testmask desc (v ∷ vs) m ≡ (v || (is_struct desc && marks_any (is_chosen fields) vs 1))
  unfolding testmask
  testmask-request2mask fields m i v vs lt f e lo hi on =
      let g = (selected fields m (omega arith) lt f e).0 i lo hi on in
      ground (arith, g 0, marked_lem (is_chosen fields) m vs 1 (omega arith) g)
