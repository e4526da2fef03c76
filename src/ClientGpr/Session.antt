-- ===== src/ClientGpr/Session.antt =====
-- src/clientget.cpp: the calls that an operation takes, from its channel and from the user.
use pvxs.Prelude.{
  Bool, true, false, ◌&&◌, ◌||◌, Option, none, some, List, [], ◌∷◌, ◌++◌, if◌then◌else◌,
}
use pvxs.ServerGpr.State.{Cmd, is_rpc, is_put}
use pvxs.ClientGpr.State.{
  Result, Callback, Built, Values, GprOp, Action, connecting, empty, re_exec_refused, is_idle,
  cancel_op, cancel, create_op, disconnected, re_exec,
}
use pvxs.ClientGpr.Receive.{Reply, Outcome, handled, handle_gpr}

-- Channel::createOperations, Channel::disconnect, a message, and the calls of the user. `drop` is
-- the end of the handle.
pub data Call (V : Type 0) : Type 0 where
  create : Call V
  disconnect : Call V
  receive : Reply V → Call V
  stop : Call V
  drop : Call V
  re_exec_get : (Result V → Callback) → Call V
  re_exec_put : V → (Result V → Callback) → Call V

-- What the builders of the user set up.
pub record Setup (V : Type 0) : Type 0 where
  pub cmd : Cmd
  pub builder : Option (Option V → Built V)
  pub on_done : Option (Result V → Callback)
  pub on_init : Option (Option V → Callback)
  pub arg : Option V
  pub get_oput : Bool
  pub auto_exec : Bool

module _ {V : Type 0} where
  -- gpr_setup: in the pending list of its channel. Only a PUT reads first, and only it has a
  -- builder; an RPC has no onInit and has autoExec.
  unfoldable pub setup : Setup V → GprOp V
  setup b = record {
    state = connecting;
    cmd = b.cmd;
    builder = if is_put b.cmd then b.builder else none;
    on_done = b.on_done;
    on_init = if is_rpc b.cmd then none else b.on_init;
    arg = if is_rpc b.cmd then b.arg else none;
    result = empty;
    builder_busy = false;
    done_busy = false;
    init_busy = false;
    get_oput = is_put b.cmd && b.get_oput;
    auto_exec = is_rpc b.cmd || b.auto_exec;
    registered = false;
    pending = true;
    prototype = none;
  }

  abbrev pub constant : V → Option V → Built V
  constant v p = record { cancels = false; built = some (some v) }

  abbrev pub or_same : GprOp V → Option (GprOp V × List (Action V)) → GprOp V × List (Action V)
  or_same m none = (m, [])
  or_same m (some r) = r

  -- A message that is refused closes the connection, and `disconnect` is a call for that by itself.
  abbrev pub after_receive :
      GprOp V → Outcome (GprOp V × List (Action V)) → GprOp V × List (Action V)
  after_receive m (handled r) = r
  after_receive m _ = (m, [])

module _ {V : Type 0} (vs : Values V) where
  abbrev pub with_builder : GprOp V → Option V → GprOp V
  with_builder m none = m
  with_builder m (some v) = record m { builder = some (constant v) }

  -- `_reExecImpl`, on the worker. For a GET, the value is none.
  unfoldable pub re_exec_impl :
      GprOp V → Option V → Bool → (Result V → Callback) → GprOp V × List (Action V)
  unfolding re_exec
  re_exec_impl m v is_write cb =
      if m.auto_exec
      then (m, re_exec_refused ∷ [])
      else (if is_idle m.state
          then or_same m (re_exec vs (record (with_builder m v) { on_done = some cb }) is_write)
          else (m, []))

  unfoldable pub run : GprOp V → Call V → GprOp V × List (Action V)
  unfolding create_op disconnected handle_gpr cancel re_exec_impl
  run m create = create_op m
  run m disconnect = disconnected m
  run m (receive r) = after_receive m (handle_gpr vs m r)
  run m stop = let r = cancel m in (r.0, r.1)
  run m drop = let r = cancel_op m in (r.0, r.1)
  run m (re_exec_get cb) = if is_rpc m.cmd then (m, []) else re_exec_impl m none false cb
  run m (re_exec_put v cb) = if is_put m.cmd then re_exec_impl m (some v) true cb else (m, [])

  abbrev pub run_all : GprOp V → List (Call V) → GprOp V × List (Action V)
  run_all m [] = (m, [])
  run_all m (c ∷ cs) = let r = run m c in let rest = run_all r.0 cs in (rest.0, r.1 ++ rest.1)
