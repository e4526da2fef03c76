-- ===== src/SharedPv/Tests.antt =====
-- Runs of a SharedPV with a number as its value, and of a StaticSource.
use pvxs.Prelude.{
  ℕ, ◌+◌, ◌≡◌, refl, Bool, true, false, none, List, [], ◌∷◌, map, length, ◌==◌, if◌then◌else◌, All,
}
use pvxs.SharedPv.State.{
  Values, SharedPv, op_connected, sub_connected, sub_posted, exec_replied, first_connected,
  last_disconnected, open_pv, post, attach, close_channel, on_op, on_subscribe, do_get,
}
use pvxs.SharedPv.Session.{
  Call, opens, closes, posts, attaches, channel_closes, op_arrives, subscribes, gets, new_pv, run,
  run_all,
}
use pvxs.SharedPv.Views.{seen, Follows, NonePending}
use pvxs.SharedPv.Feed.{run_all-Follows}
use pvxs.SharedPv.Presence.{firsts, lasts, occupied, run_all-balance, run_all-close}
use pvxs.SharedPv.Source
use pvxs.SharedPv.Source.{
  on_search, on_create, on_list, claim_if, attach_found, keys, listed, build, adds, removes,
}
use pvxs.SharedPv.Names.{meaning, run_all-meaning}

-- An update is added to the value.
abbrev sums : Values ℕ
sums = record { desc = λ v. 7; is_struct = λ v. true; assign = λ a b. a + b }

-- Subscription 2 is of a client that has gone.
abbrev there : ℕ → Bool
there n = if n == 2 then false else true

abbrev one_day : List (Call ℕ)
one_day =
    attaches 1
    ∷ subscribes
    ∷ op_arrives 5
    ∷ opens 10
    ∷ posts 3
    ∷ subscribes
    ∷ subscribes
    ∷ posts 4
    ∷ gets
    ∷ channel_closes 1
    ∷ []

abbrev pv : SharedPv ℕ
pv = new_pv true true false false

day_run :
    (run_all sums there there pv one_day).1
    ≡ first_connected
      ∷ sub_connected 0 10
      ∷ sub_posted 0 10
      ∷ op_connected 5 10
      ∷ sub_posted 0 3
      ∷ sub_connected 1 13
      ∷ sub_posted 1 13
      ∷ sub_posted 0 4
      ∷ sub_posted 1 4
      ∷ exec_replied 17
      ∷ last_disconnected
      ∷ []
unfolding run open_pv post attach close_channel on_op on_subscribe do_get
day_run = refl

run_all-Follows_example :
    let r = run_all sums there there (new_pv true true false false) one_day in
    All (λ s. Follows there r.0.current (seen sums s.id none r.1) s) r.0.msubscribers
    × NonePending r.0.current r.0.pending
run_all-Follows_example = run_all-Follows sums there there true true false false one_day

run_all-balance_example :
    let r = run_all sums there there pv one_day in
    firsts r.1 + occupied pv.channels ≡ lasts r.1 + occupied r.0.channels
unfolding run open_pv post attach close_channel on_op on_subscribe do_get
run_all-balance_example = run_all-balance sums there there pv one_day refl refl (refl, tt)

abbrev two_clients : SharedPv ℕ
two_clients = (run_all sums there there pv (attaches 1 ∷ attaches 2 ∷ [])).0

run_all-close_example :
    lasts
      (run_all sums there there two_clients (closes ∷ map channel_closes two_clients.channels)).1
    ≡ length two_clients.channels
unfolding run attach
run_all-close_example = run_all-close sums there there two_clients refl

run_all-meaning_example :
    let s = (Source.run_all build (adds 1 8 ∷ adds 1 9 ∷ adds 2 9 ∷ removes 2 ∷ [])).0 in
    (on_search s (1 ∷ [])
      ≡ claim_if 1 (meaning 1 none (adds 1 8 ∷ adds 1 9 ∷ adds 2 9 ∷ removes 2 ∷ [])))
    × (on_create s 4 1
        ≡ attach_found 4 (meaning 1 none (adds 1 8 ∷ adds 1 9 ∷ adds 2 9 ∷ removes 2 ∷ [])))
    × ((on_list s true).1 ≡ listed (keys s.pvs) ∷ [])
run_all-meaning_example = run_all-meaning (adds 1 8 ∷ adds 1 9 ∷ adds 2 9 ∷ removes 2 ∷ []) 1 4 true
