-- ===== src/ClientGpr/Receive.antt =====
-- src/clientget.cpp: Connection::handle_GPR, for a message with the IOID of one operation.
use pvxs.Prelude.{
  Bool, true, false, ◌&&◌, ◌||◌, not, ℕ, Option, none, some, List, [], ◌∷◌, ◌++◌, if◌then◌else◌,
}
use pvxs.Wire.Header.{has}
use pvxs.ServerGpr.State.{Cmd, get, put, rpc, is_rpc, is_get, is_put}
use pvxs.ClientGpr.State.{
  State, creating, idle, get_o_put, build_put, exec, done, remote, init_threw, value, failed,
  Callback, Values, GprOp, Action, init_called, is_idle, cancel_if, before, notify, send_reply,
  re_exec,
}

-- A message: whether its IOID, subcommand and status could be read, whether the status is a
-- success, and what the types and values read as, where they are read; `none` is a fault. The
-- fields that a GET reply marks are read into a value of the prototype.
pub record Reply (V : Type 0) : Type 0 where
  pub cmd : Cmd
  pub good : Bool
  pub subcmd : ℕ
  pub success : Bool
  pub described : Option (Option V)
  pub whole : Option (Option V)
  pub valid : V → Option V

-- `dropped` closes the connection: a fault, or an exception that bevReadS catches.
pub data Outcome (A : Type 0) : Type 0 where
  dropped : Outcome A
  ignored : Outcome A
  handled : A → Outcome A

abbrev pub is_exec : State → Bool
is_exec exec = true
is_exec _ = false

abbrev pub same_cmd : Cmd → Cmd → Bool
same_cmd get c = is_get c
same_cmd put c = is_put c
same_cmd rpc c = is_rpc c

abbrev pub is_init : {V : Type 0} → Reply V → Bool
is_init r = has r.subcmd 0x08

abbrev pub has_get : {V : Type 0} → Reply V → Bool
has_get r = has r.subcmd 0x40

-- Whether the subcommand is as the state expects it.
abbrev pub is_expected : State → Bool → Bool → Bool
is_expected creating init gets = init
is_expected get_o_put init gets = not init && gets
is_expected exec init gets = not init && not gets
is_expected _ init gets = false

module _ {V : Type 0} where
  -- What is decoded before the operation is looked up.
  unfoldable pub decode : Reply V → Option (Option V)
  decode r =
      if not r.good
      then none
      else (if not (is_rpc r.cmd) && is_init r && r.success
          then r.described
          else (if is_rpc r.cmd && not (is_init r) && r.success then r.whole else some none))

  abbrev pub stores_type : Reply V → Bool
  stores_type r = not (is_rpc r.cmd) && is_init r && r.success

  abbrev pub reads_value : Reply V → Bool
  reads_value r = not (is_init r) && (is_get r.cmd || (is_put r.cmd && has_get r)) && r.success

  abbrev pub or_dropped : Option (GprOp V × List (Action V)) → Outcome (GprOp V × List (Action V))
  or_dropped none = dropped
  or_dropped (some r) = handled r

  abbrev pub call_init :
      Option (Option V → Callback) → Option V → GprOp V → GprOp V × List (Action V)
  call_init none v m = (m, [])
  call_init (some f) v m =
      let b = f v in
      let r = cancel_if b.cancels (record m { init_busy = true }) in
      let m1 = record r.0 { init_busy = false } in
      let failing = notify (record m1 { result = failed init_threw; state = done }) in
      if b.throws then (failing.0, init_called v ∷ r.1 ++ failing.1) else (m1, init_called v ∷ r.1)

module _ {V : Type 0} (vs : Values V) where
  -- A status that is no success.
  unfoldable pub on_failure : GprOp V → Outcome (GprOp V × List (Action V))
  unfolding notify send_reply
  on_failure m =
      let m1 = record m { result = failed remote } in
      if is_exec m.state && not m.auto_exec
      then handled (notify (record m1 { state = idle }))
      else or_dropped (send_reply vs (record m1 { state = done }))

  -- The reply to INIT, after which an operation with autoExec goes on by itself.
  unfoldable pub on_created : GprOp V → Option V → Outcome (GprOp V × List (Action V))
  unfolding notify re_exec
  on_created m v =
      let m1 = record m { state = idle; arg = if is_rpc m.cmd then m.arg else v } in
      let r = call_init m.on_init v m1 in
      if is_idle r.0.state && r.0.auto_exec
      then or_dropped (before r.1 (re_exec vs r.0 (not r.0.get_oput)))
      else handled r

  -- The reply to the GET of a PUT. assign() throws where either value is empty.
  abbrev pub assign_got : GprOp V → Option V → Option V → Outcome (GprOp V × List (Action V))
  assign_got m (some a) (some v) =
      let m1 = record m { arg = some (vs.assign a v) } in
      if m.auto_exec
      then or_dropped (send_reply vs (record m1 { state = build_put }))
      else handled (notify (record m1 { state = idle; result = value (some v) }))
  assign_got m _ _ = dropped

  unfoldable pub on_got : GprOp V → Option V → Outcome (GprOp V × List (Action V))
  unfolding notify send_reply
  on_got m v = assign_got m m.arg v

  unfoldable pub on_executed : GprOp V → Option V → Outcome (GprOp V × List (Action V))
  unfolding notify send_reply
  on_executed m v =
      let m1 = record m { result = value v } in
      if m.auto_exec
      then or_dropped (send_reply vs (record m1 { state = done }))
      else handled (notify (record m1 { state = idle }))

  abbrev pub advance_in : State → GprOp V → Option V → Outcome (GprOp V × List (Action V))
  advance_in creating m v = on_created m v
  advance_in get_o_put m v = on_got m v
  advance_in exec m v = on_executed m v
  advance_in _ m v = dropped

  -- What follows the decoding: the checks against the operation, and its next state.
  unfoldable pub advance : GprOp V → Reply V → Option V → Outcome (GprOp V × List (Action V))
  unfolding on_failure on_created on_got on_executed
  advance m r v =
      if same_cmd r.cmd m.cmd && is_expected m.state (is_init r) (has_get r)
      then (if r.success then advance_in m.state m v else on_failure m)
      else dropped

  abbrev pub synced : GprOp V → Reply V → V × V → Outcome (GprOp V × List (Action V))
  synced m r (cache, delta) = advance (record m { prototype = some cache }) r (some delta)

  abbrev pub read_into : GprOp V → Reply V → V → Option V → Outcome (GprOp V × List (Action V))
  read_into m r p none = dropped
  read_into m r p (some v) = synced m r (vs.cache_sync p v)

  -- The value of a GET reply: the prototype, its marked fields replaced, with cache_sync.
  abbrev pub read_value : GprOp V → Reply V → Option V → Outcome (GprOp V × List (Action V))
  read_value m r none = advance m r none
  read_value m r (some p) = read_into m r p (r.valid (vs.clone_empty p))

  abbrev pub receive_decoded :
      GprOp V → Reply V → Option (Option V) → Outcome (GprOp V × List (Action V))
  receive_decoded m r none = dropped
  receive_decoded m r (some v) =
      if not m.registered
      then ignored
      else (if stores_type r
          then advance (record m { prototype = v }) r v
          else (if reads_value r then read_value m r m.prototype else advance m r v))

  unfoldable pub handle_gpr : GprOp V → Reply V → Outcome (GprOp V × List (Action V))
  unfolding decode advance
  handle_gpr m r = receive_decoded m r (decode r)
