-- ===== src/SharedPv/Source.antt =====
-- src/sharedpv.cpp: StaticSource, the PVs of a server by name. Names, and the SharedPVs that they
-- are given to, are numbers; a std::map is a list in the order of insertion.
use pvxs.Prelude.{ℕ, Bool, Option, none, some, List, [], ◌∷◌, ◌++◌, ◌==◌, if◌then◌else◌}

pub record StaticSource : Type 0 where
  pub pvs : List (ℕ × ℕ)
  -- `list`, which onList keeps for the next call
  pub names : Option (List ℕ)

pub data Event : Type 0 where
  claimed : ℕ → Event
  attached : ℕ → ℕ → Event
  closed : ℕ → Event
  listed : List ℕ → Event
  refused : Event

abbrev pub find : ℕ → List (ℕ × ℕ) → Option ℕ
find k [] = none
find k ((j, p) ∷ m) = if j == k then some p else find k m

abbrev pub erase : ℕ → List (ℕ × ℕ) → List (ℕ × ℕ)
erase k [] = []
erase k ((j, p) ∷ m) = if j == k then erase k m else (j, p) ∷ erase k m

abbrev pub keys : List (ℕ × ℕ) → List ℕ
keys [] = []
keys ((j, p) ∷ m) = j ∷ keys m

abbrev pub claim_if : ℕ → Option ℕ → List Event
claim_if k none = []
claim_if k (some p) = claimed k ∷ []

unfoldable pub on_search : StaticSource → List ℕ → List Event
on_search s [] = []
on_search s (k ∷ ks) = claim_if k (find k s.pvs) ++ on_search s ks

abbrev pub attach_found : ℕ → Option ℕ → List Event
attach_found ch none = []
attach_found ch (some p) = attached p ch ∷ []

-- A channel is its number and its name.
unfoldable pub on_create : StaticSource → ℕ → ℕ → List Event
on_create s ch name = attach_found ch (find name s.pvs)

abbrev pub list_with : StaticSource → Option (List ℕ) → StaticSource × List Event
list_with s none = (record s { names = some (keys s.pvs) }, listed (keys s.pvs) ∷ [])
list_with s (some l) = (s, listed l ∷ [])

-- `shared`: whether somebody else holds the list that is kept, which is made again then.
unfoldable pub on_list : StaticSource → Bool → StaticSource × List Event
on_list s shared = list_with s (if shared then none else s.names)

abbrev pub add_new : StaticSource → ℕ → ℕ → Option ℕ → StaticSource × List Event
add_new s name pv (some p) = (s, refused ∷ [])
add_new s name pv none = (record s { pvs = s.pvs ++ ((name, pv) ∷ []); names = none }, [])

unfoldable pub add : StaticSource → ℕ → ℕ → StaticSource × List Event
add s name pv = add_new s name pv (find name s.pvs)

abbrev pub remove_found : StaticSource → ℕ → Option ℕ → StaticSource × List Event
remove_found s name none = (s, [])
remove_found s name (some p) = (record s { pvs = erase name s.pvs; names = none }, closed p ∷ [])

-- The PV is closed, under whatever other names it may be.
unfoldable pub remove : StaticSource → ℕ → StaticSource × List Event
remove s name = remove_found s name (find name s.pvs)

abbrev pub close_each : List (ℕ × ℕ) → List Event
close_each [] = []
close_each ((j, p) ∷ m) = closed p ∷ close_each m

unfoldable pub close : StaticSource → List Event
close s = close_each s.pvs

pub data Call : Type 0 where
  adds : ℕ → ℕ → Call
  removes : ℕ → Call
  closes : Call
  searches : List ℕ → Call
  creates : ℕ → ℕ → Call
  lists : Bool → Call

unfoldable pub run : StaticSource → Call → StaticSource × List Event
unfolding add remove close on_search on_create on_list
run s (adds name pv) = add s name pv
run s (removes name) = remove s name
run s closes = (s, close s)
run s (searches ks) = (s, on_search s ks)
run s (creates ch name) = (s, on_create s ch name)
run s (lists shared) = on_list s shared

abbrev pub run_all : StaticSource → List Call → StaticSource × List Event
run_all s [] = (s, [])
run_all s (c ∷ cs) = let r = run s c in let rest = run_all r.0 cs in (rest.0, r.1 ++ rest.1)

abbrev pub build : StaticSource
build = record { pvs = []; names = none }
