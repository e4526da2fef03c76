-- ===== src/ServerGpr/Tests.antt =====
-- Runs of the server's end of a GET.
use pvxs.Prelude.{
  if◌then◌else◌, ◌==◌, ℕ, ◌+◌, ◌≤◌, ◌≡◌, refl, true, false, Option, none, some, List, [], ◌∷◌,
}
use pvxs.ServerMonitor.State.{idle, executing}
use pvxs.ServerGpr.State.{get, rpc, Value, replied, get_called, cancel_called, described, masked}
use pvxs.ServerGpr.Session.{
  Session, Exec, Call, connect, drop_setup, set_on_get, set_on_cancel, exec, reply, work, run,
  run_all, new_op,
}
use pvxs.ServerGpr.Replies.{sent, owed, run_all-sent}
use pvxs.ServerGpr.Answer.{works, Settled, drop_setup-answers}
use pvxs.ServerGpr.Types.{AllOfType, run_all-AllOfType}

-- A mask is a number here, and there is none for the type 9.
abbrev mask_of : ℕ → Option ℕ
mask_of t = if t == 9 then none else some 1

abbrev created : Session ℕ ℕ
created = record { op = new_op get 0x08; jobs = []; held = true; did_connect = false }

abbrev five : Value ℕ
five = record { desc = 4; content = 5 }

abbrev last_get : Exec ℕ
last_get = record {
  cmd = get;
  subcmd = 0x50;
  good = true;
  val = none;
  on_rpc = false;
  throws = false;
}

abbrev one_get : List (Call ℕ)
one_get =
    connect (some 4)
    ∷ set_on_get true
    ∷ set_on_cancel true
    ∷ drop_setup
    ∷ work true
    ∷ exec last_get
    ∷ reply (some five)
    ∷ work true
    ∷ work true
    ∷ []

-- The last request of an operation calls onCancel, though the reply is on its way.
get_run :
    (run_all mask_of created one_get).1
    ≡ replied 0x08 (described (some 4))
      ∷ get_called
      ∷ cancel_called
      ∷ replied 0x50 (masked five (some 1))
      ∷ []
unfolding run
get_run = refl

-- An RPC message with the Get flag is taken and is never answered.
abbrev rpc_get : Exec ℕ
rpc_get = record {
  cmd = rpc;
  subcmd = 0x40;
  good = true;
  val = none;
  on_rpc = true;
  throws = false;
}

rpc_stuck :
    run mask_of (record created { op = record (new_op rpc 0x08) { state = idle } }) (exec rpc_get)
    ≡ (record created { op = record (new_op rpc 0x40) { state = executing } }, [])
unfolding run
rpc_stuck = refl

run_all-sent_example :
    sent (run_all mask_of created one_get).1 + owed (run_all mask_of created one_get).0.op.state ≤ 2
unfolding run
run_all-sent_example = run_all-sent ℕ mask_of created one_get

-- A setup that is dropped after a connect() with a type that has no mask.
abbrev refused : Session ℕ ℕ
refused = (run mask_of created (connect (some 9))).0

drop_setup-answers_example :
    (sent (run_all mask_of refused (drop_setup ∷ works 2)).1 ≡ 1)
    × Settled (run_all mask_of refused (drop_setup ∷ works 2)).0.op.state
unfolding run
drop_setup-answers_example = drop_setup-answers ℕ mask_of refused refl refl

abbrev connected : Session ℕ ℕ
connected = record created {
  op = record (new_op get 0x08) { type = some 4; mask = some 1; on_get = true; state = idle };
}

run_all-AllOfType_example :
    AllOfType 4 (run_all mask_of connected (exec last_get ∷ reply (some five) ∷ work true ∷ [])).1
run_all-AllOfType_example =
    run_all-AllOfType ℕ 4 mask_of connected (exec last_get ∷ reply (some five) ∷ work true ∷ [])
      refl
