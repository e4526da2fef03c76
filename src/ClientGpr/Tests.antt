-- ===== src/ClientGpr/Tests.antt =====
-- Runs of the client's end of a PUT.
use pvxs.Prelude.{
  ℕ, ◌+◌, ◌≤◌, ◌≡◌, refl, true, false, Option, none, some, List, [], ◌∷◌, ◌++◌, if◌then◌else◌, All,
}
use pvxs.ServerGpr.State.{get}
use pvxs.ClientGpr.State.{
  idle, build_put, exec, done, Values, GprOp, Action, sent_init, sent_get, sent_exec, sent_destroy,
  init_called, builder_called, valid_fields, no_payload, on_server, cancel_op, create_op,
  disconnected, re_exec, send_reply, notify,
}
use pvxs.ClientGpr.Receive.{Reply, decode, handle_gpr, advance, on_created, on_got}
use pvxs.ClientGpr.Session.{
  Setup, Call, setup, create, disconnect, receive, stop, drop, re_exec_get, re_exec_impl, run,
  run_all,
}
use pvxs.ClientGpr.Owed.{completions, owed}
use pvxs.ClientGpr.Once.{run_all-completions}
use pvxs.ClientGpr.Stop.{IsRefusal, run_all-stopped}
use pvxs.ClientGpr.Update.{
  modify, calm, init_reply, get_reply, put_reply, cancelling, run_all-modify, send_reply-cancelled,
}

-- A Value of one field, a number.
abbrev plain : Values ℕ
plain = record { clone_empty = λ v. 0; assign = λ a b. b; cache_sync = λ c d. (d, d) }

abbrev doubled : Option ℕ → Option ℕ
doubled none = none
doubled (some v) = some (v + v)

abbrev doubling : GprOp ℕ
doubling = setup (modify doubled true)

abbrev replies : List (Call ℕ)
replies =
    create ∷ receive (init_reply 0) ∷ receive (get_reply (λ v. some 4)) ∷ receive put_reply ∷ []

run_all-modify_example : (run_all plain (setup (modify doubled true)) replies).0.state ≡ done
run_all-modify_example = (run_all-modify plain doubled 0 4 (λ v. some 4) refl).0

-- The connection is lost before the reply to the EXEC: the PUT is done again, from its INIT.
put_again :
    (run_all plain doubling (
      create
      ∷ receive (init_reply 0)
      ∷ receive (get_reply (λ v. some 4))
      ∷ disconnect
      ∷ create
      ∷ receive (init_reply 0)
      ∷ receive (get_reply (λ v. some 8))
      ∷ [])).1
    ≡ sent_init
      ∷ init_called (some 0)
      ∷ sent_get
      ∷ builder_called (some 4)
      ∷ sent_exec (valid_fields (some 8))
      ∷ sent_init
      ∷ init_called (some 0)
      ∷ sent_get
      ∷ builder_called (some 8)
      ∷ sent_exec (valid_fields (some 16))
      ∷ []
unfolding run setup create_op disconnected handle_gpr decode advance on_created on_got re_exec
    send_reply notify
put_again = refl

run_all-completions_example :
    completions (run_all plain doubling (disconnect ∷ replies)).1
      + owed (run_all plain doubling (disconnect ∷ replies)).0.state
    ≤ 1
unfolding setup
run_all-completions_example = run_all-completions plain doubling (disconnect ∷ replies) refl

-- An operation that a GET reply is awaited for.
abbrev reading : GprOp ℕ
reading = (run_all plain doubling (create ∷ receive (init_reply 0) ∷ [])).0

run_all-stopped_example :
    let r = run_all plain reading (stop ∷ replies) in
    (r.0.state ≡ done)
    × ((rest : List (Action ℕ)) × (r.1
          ≡ (if on_server reading.state then sent_destroy ∷ [] else []) ++ rest)
        × All IsRefusal rest)
run_all-stopped_example = run_all-stopped plain reading replies

abbrev building : GprOp ℕ
building = record (setup (modify doubled true)) {
  builder = some (cancelling doubled);
  state = build_put;
  arg = some 4;
}

send_reply-cancelled_example :
    (n : GprOp ℕ) × (send_reply plain building
      ≡ some (n, builder_called (some 4) ∷ sent_exec (valid_fields (some 8)) ∷ []))
    × (n.state ≡ exec)
    × (n.on_done ≡ none)
unfolding setup
send_reply-cancelled_example = send_reply-cancelled plain doubled building refl refl refl refl

-- A GET without autoExec: an execution that a lost connection ends is never answered.
abbrev by_hand : Setup ℕ
by_hand = record {
  cmd = get;
  builder = none;
  on_done = none;
  on_init = none;
  arg = none;
  get_oput = false;
  auto_exec = false;
}

abbrev get_init : Reply ℕ
get_init = record (init_reply 0) { cmd = get }

get_lost :
    let r = run_all plain (setup by_hand) (
      create
      ∷ receive get_init
      ∷ re_exec_get (λ r. calm)
      ∷ disconnect
      ∷ create
      ∷ receive get_init
      ∷ []) in
    (r.0.state ≡ idle) × (r.1 ≡ sent_init ∷ sent_exec no_payload ∷ sent_init ∷ [])
unfolding run setup create_op disconnected handle_gpr decode advance on_created re_exec send_reply
    re_exec_impl
get_lost = (refl, refl)

-- onInit that throws ends the operation, and the server is not told.
init_throws :
    let r =
      run_all plain
        (setup (record (modify doubled true) {
          on_init = some (λ v. record { cancels = false; throws = true });
        }))
        (create ∷ receive (init_reply 0) ∷ drop ∷ []) in
    (r.0.registered ≡ true) × (completions r.1 ≡ 1) × (r.0.state ≡ done)
unfolding run setup create_op handle_gpr decode advance on_created notify cancel_op
init_throws = (refl, refl, refl)
