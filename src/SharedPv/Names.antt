-- ===== src/SharedPv/Names.antt =====
-- src/sharedpv.cpp: a StaticSource against the names that were added and removed.
use pvxs.Prelude.{
  ℕ, ◌≡◌, refl, Bool, true, false, Option, none, some, List, [], ◌∷◌, ◌++◌, ◌==◌, if◌then◌else◌,
  Option-cases, ◌⊎◌, inl, inr, append-nil, arith,
}
use pvxs.SharedPv.Source.{
  StaticSource, Event, listed, find, erase, attach_found, keys, claim_if, on_search, on_create,
  on_list, add, remove, Call, adds, removes, closes, searches, creates, lists, run, run_all, build,
}

abbrev pub or_new : Option ℕ → ℕ → Option ℕ
or_new none q = some q
or_new (some p) q = some p

-- What a name stands for after some calls: the PV of the first add() that found it free, until it
-- is removed.
abbrev pub meaning : ℕ → Option ℕ → List Call → Option ℕ
meaning k o [] = o
meaning k o (adds name pv ∷ cs) = meaning k (if name == k then or_new o pv else o) cs
meaning k o (removes name ∷ cs) = meaning k (if name == k then none else o) cs
meaning k o (c ∷ cs) = meaning k o cs

find-push :
    (k name pv : ℕ) (m : List (ℕ × ℕ))
    → find name m ≡ none
    → find k (m ++ ((name, pv) ∷ [])) ≡ (if name == k then or_new (find k m) pv else find k m)
find-push k name pv [] h = ground arith
find-push k name pv ((j, p) ∷ m) h = ground (arith, find-push k name pv m)

find-erase :
    (k name : ℕ) (m : List (ℕ × ℕ)) → find k (erase name m) ≡ (if name == k then none else find k m)
find-erase k name [] = ground arith
find-erase k name ((j, p) ∷ m) = ground (arith, find-erase k name m)

-- The list that is kept is that of the names.
abbrev pub IsCurrent : StaticSource → Type 0
IsCurrent s = (s.names ≡ none) ⊎ (s.names ≡ some (keys s.pvs))

abbrev Steps : ℕ → Option ℕ → StaticSource × List Event → Type 0
Steps k o r = (find k r.0.pvs ≡ o) × IsCurrent r.0

add-Steps :
    (k name pv : ℕ) (s : StaticSource)
    → IsCurrent s
    → Steps k (if name == k then or_new (find k s.pvs) pv else find k s.pvs) (add s name pv)
unfolding add
add-Steps k name pv s h = elim (Option-cases (find name s.pvs)) [
  | inl e ↦ rw e (find-push k name pv s.pvs e, inl refl)
  | inr (p, e) ↦ rw e (ground arith, h)
]

remove-Steps :
    (k name : ℕ) (s : StaticSource)
    → IsCurrent s
    → Steps k (if name == k then none else find k s.pvs) (remove s name)
unfolding remove
remove-Steps k name s h = elim (Option-cases (find name s.pvs)) [
  | inl e ↦ rw e (ground arith, h)
  | inr (p, e) ↦ rw e (find-erase k name s.pvs, inl refl)
]

list-Steps :
    (k : ℕ) (shared : Bool) (s : StaticSource)
    → IsCurrent s
    → Steps k (find k s.pvs) (on_list s shared) × ((on_list s shared).1 ≡ listed (keys s.pvs) ∷ [])
unfolding on_list
list-Steps k true s h = ((refl, inr refl), refl)
list-Steps k false s (inl e) = rw e ((refl, inr refl), refl)
list-Steps k false s (inr e) = rw e ((refl, inr refl), refl)

run_all-Steps :
    (k : ℕ) (s : StaticSource) (cs : List Call)
    → IsCurrent s
    → Steps k (meaning k (find k s.pvs) cs) (run_all s cs)
unfolding run
run_all-Steps k s [] h = (refl, h)
run_all-Steps k s (adds name pv ∷ cs) h =
    let (e, c) = add-Steps k name pv s h in rw (← e) (run_all-Steps k (add s name pv).0 cs c)
run_all-Steps k s (removes name ∷ cs) h =
    let (e, c) = remove-Steps k name s h in rw (← e) (run_all-Steps k (remove s name).0 cs c)
run_all-Steps k s (closes ∷ cs) h = run_all-Steps k s cs h
run_all-Steps k s (searches ks ∷ cs) h = run_all-Steps k s cs h
run_all-Steps k s (creates ch name ∷ cs) h = run_all-Steps k s cs h
run_all-Steps k s (lists shared ∷ cs) h =
    let ((e, c), _) = list-Steps k shared s h in
    rw (← e) (run_all-Steps k (on_list s shared).0 cs c)

-- After any calls to a new StaticSource, a search for a name claims it, and a channel for it is
-- attached, just where the name was added when it was free and not removed since, to the PV of
-- that add(); the names that onList gives are those of the map, whether or not it makes the list
-- again.
pub run_all-meaning :
    (cs : List Call) (k ch : ℕ) (shared : Bool)
    → let s = (run_all build cs).0 in
      (on_search s (k ∷ []) ≡ claim_if k (meaning k none cs))
      × (on_create s ch k ≡ attach_found ch (meaning k none cs))
      × ((on_list s shared).1 ≡ listed (keys s.pvs) ∷ [])
unfolding on_search on_create
run_all-meaning cs k ch shared =
    let (e, c) = run_all-Steps k build cs (inl refl) in
    rw e (append-nil _, refl, (list-Steps k shared (run_all build cs).0 c).1)
