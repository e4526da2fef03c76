-- ===== src/ClientGpr/Update.antt =====
-- src/clientget.cpp: a PUT from its INIT to its end, and a builder that cancels its operation.
use pvxs.Prelude.{◌≡◌, refl, Bool, true, false, Option, none, some, [], ◌∷◌, if◌then◌else◌, arith}
use pvxs.ServerGpr.State.{put}
use pvxs.ClientGpr.State.{
  exec, done, build_put, value, Callback, Built, Values, GprOp, sent_init, sent_get, sent_exec,
  sent_destroy, init_called, builder_called, done_called, valid_fields, cancel, cancel_op, notify,
  send_reply, re_exec, create_op,
}
use pvxs.ClientGpr.Receive.{Reply, on_created, on_got, on_executed, advance, decode, handle_gpr}
use pvxs.ClientGpr.Session.{Setup, setup, create, receive, run, run_all}

abbrev pub calm : Callback
calm = record { cancels = false; throws = false }

module _ {V : Type 0} where
  -- The replies of a server that succeeds.
  abbrev pub init_reply : V → Reply V
  init_reply p = record {
    cmd = put;
    good = true;
    subcmd = 0x08;
    success = true;
    described = some (some p);
    whole = none;
    valid = λ v. none;
  }

  abbrev pub get_reply : (V → Option V) → Reply V
  get_reply f = record {
    cmd = put;
    good = true;
    subcmd = 0x40;
    success = true;
    described = none;
    whole = none;
    valid = f;
  }

  abbrev pub put_reply : Reply V
  put_reply = record {
    cmd = put;
    good = true;
    subcmd = 0x00;
    success = true;
    described = none;
    whole = none;
    valid = λ v. none;
  }

  abbrev pub modify : (Option V → Option V) → Bool → Setup V
  modify f gets = record {
    cmd = put;
    builder = some (λ v. record { cancels = false; built = some (f v) });
    on_done = some (λ r. calm);
    on_init = some (λ v. calm);
    arg = none;
    get_oput = gets;
    auto_exec = true;
  }

module _ {V : Type 0} (vs : Values V) (f : Option V → Option V) (p : V) where
  -- A PUT with autoExec that reads first, with callbacks that neither cancel nor throw, given
  -- replies that succeed, calls the builder once with the prototype that took in the value read
  -- (completed by cache_sync), sends what the builder makes of it, destroys the request, and calls
  -- the result callback with success.
  pub run_all-modify :
      (v : V) (read : V → Option V)
      → read (vs.clone_empty p) ≡ some v
      → let got = some (vs.assign p (vs.cache_sync p v).1) in
        let calls =
          create ∷ receive (init_reply p) ∷ receive (get_reply read) ∷ receive put_reply ∷ [] in
        ((run_all vs (setup (modify f true)) calls).0.state ≡ done)
        × ((run_all vs (setup (modify f true)) calls).1
            ≡ sent_init
              ∷ init_called (some p)
              ∷ sent_get
              ∷ builder_called got
              ∷ sent_exec (valid_fields (f got))
              ∷ sent_destroy
              ∷ done_called (value none)
              ∷ [])
  unfolding run setup create_op handle_gpr decode advance on_created on_got on_executed re_exec
      send_reply notify
  run_all-modify v read h = (rw h refl, rw h refl)

abbrev pub cancelling : {V : Type 0} → (Option V → Option V) → Option V → Built V
cancelling g v = record { cancels = true; built = some (g v) }

module _ {V : Type 0} (vs : Values V) (g : Option V → Option V) where
  -- When the builder of a PUT calls cancel() and returns a value, and no result callback is in
  -- progress, the PUT is sent all the same and the operation is left in Exec with no result
  -- callback.
  pub send_reply-cancelled :
      (m : GprOp V)
      → m.state ≡ build_put
      → m.builder ≡ some (cancelling g)
      → m.cmd ≡ put
      → m.done_busy ≡ false
      → (n : GprOp V) × (send_reply vs m
          ≡ some (n, builder_called m.arg ∷ sent_exec (valid_fields (g m.arg)) ∷ []))
        × (n.state ≡ exec)
        × (n.on_done ≡ none)
  unfolding send_reply cancel cancel_op
  send_reply-cancelled m st b c idle_done = (
    record m {
      state = exec;
      builder_busy = false;
      on_done = none;
      on_init = if m.init_busy then m.on_init else none;
    },
    ground arith,
    refl,
    refl,
  )
