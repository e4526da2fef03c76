-- ===== src/ClientGpr/State.antt =====
-- src/clientget.cpp: the state of a GPROp, its callbacks, and what it does without a message.
-- V is a Value that is not empty; an Option V may be. A clone is the same value.
use pvxs.Prelude.{
  Bool, true, false, ◌&&◌, ◌||◌, not, Option, none, some, List, [], ◌∷◌, ◌++◌, if◌then◌else◌,
}
use pvxs.ServerGpr.State.{Cmd, put, is_rpc, is_get, is_put}

pub data State : Type 0 where
  connecting creating idle get_o_put build_put exec done : State

pub data Failure : Type 0 where
  remote init_threw builder_threw done_threw lost unexpected : Failure

pub data Result (V : Type 0) : Type 0 where
  empty : Result V
  value : Option V → Result V
  failed : Failure → Result V

-- What a callback of the user does: whether it cancels the operation, and whether it throws.
pub record Callback : Type 0 where
  pub cancels : Bool
  pub throws : Bool

-- The same for the builder of a PUT, with what it builds if it does not throw.
pub record Built (V : Type 0) : Type 0 where
  pub cancels : Bool
  pub built : Option (Option V)

-- What is asked of Values of one type: cloneEmpty, assign, and cache_sync, which changes both.
pub record Values (V : Type 0) : Type 0 where
  pub clone_empty : V → V
  pub assign : V → V → V
  pub cache_sync : V → V → V × V

pub record GprOp (V : Type 0) : Type 0 where
  pub state : State
  pub cmd : Cmd
  pub builder : Option (Option V → Built V)
  pub on_done : Option (Result V → Callback)
  pub on_init : Option (Option V → Callback)
  pub arg : Option V
  pub result : Result V
  pub builder_busy : Bool
  pub done_busy : Bool
  pub init_busy : Bool
  pub get_oput : Bool
  pub auto_exec : Bool
  -- whether it is in opByIOID of its connection and channel, and in the channel's pending
  pub registered : Bool
  pub pending : Bool
  -- of the RequestInfo that the connection keeps for it
  pub prototype : Option V

-- What follows the subcommand of an EXEC.
pub data Payload (V : Type 0) : Type 0 where
  no_payload : Payload V
  valid_fields : Option V → Payload V
  typed : Option V → Payload V

-- Messages to the server, and callbacks.
pub data Action (V : Type 0) : Type 0 where
  sent_init : Action V
  sent_get : Action V
  sent_exec : Payload V → Action V
  sent_destroy : Action V
  init_called : Option V → Action V
  builder_called : Option V → Action V
  done_called : Result V → Action V
  re_exec_refused : Action V

abbrev pub is_done : State → Bool
is_done done = true
is_done _ = false

-- The states in which the server has the operation, as far as the client knows.
abbrev pub on_server : State → Bool
on_server idle = true
on_server get_o_put = true
on_server exec = true
on_server _ = false

abbrev pub is_creating : State → Bool
is_creating creating = true
is_creating _ = false

abbrev pub is_idle : State → Bool
is_idle idle = true
is_idle _ = false

abbrev pub exec_state : Cmd → Bool → State
exec_state put true = build_put
exec_state put false = get_o_put
exec_state _ _ = exec

abbrev pub is_error : {V : Type 0} → Result V → Bool
is_error (failed f) = true
is_error _ = false

module _ {V : Type 0} where
  -- `_cancel`: whether there was something to cancel is the last part.
  unfoldable pub cancel_op : GprOp V → GprOp V × List (Action V) × Bool
  cancel_op m = (
    record m {
      state = done;
      registered = if is_creating m.state || on_server m.state then false else m.registered;
    },
    if on_server m.state then sent_destroy ∷ [] else [],
    not (is_done m.state),
  )

  -- `cancel`, on the worker.
  unfoldable pub cancel : GprOp V → GprOp V × List (Action V) × Bool
  unfolding cancel_op
  cancel m =
      let r = cancel_op m in
      (
        record r.0 {
          builder = if m.builder_busy then m.builder else none;
          on_done = if m.done_busy then m.on_done else none;
          on_init = if m.init_busy then m.on_init else none;
        },
        r.1,
        r.2,
      )

  abbrev pub cancel_if : Bool → GprOp V → GprOp V × List (Action V)
  cancel_if b m = if b then (let r = cancel m in (r.0, r.1)) else (m, [])

  abbrev pub keep_first : Bool → Result V → Result V
  keep_first throws r = if throws && not (is_error r) then failed done_threw else r

  abbrev pub call_done : Option (Result V → Callback) → GprOp V → GprOp V × List (Action V)
  call_done none m = (m, [])
  call_done (some f) m =
      let b = f m.result in
      let r = cancel_if b.cancels (record m { done_busy = true }) in
      (
        record r.0 { done_busy = false; result = keep_first b.throws r.0.result },
        done_called m.result ∷ r.1,
      )

  unfoldable pub notify : GprOp V → GprOp V × List (Action V)
  unfolding cancel
  notify m = call_done m.on_done m

  abbrev pub exec_payload : GprOp V → Option V → Payload V
  exec_payload m v =
      if is_put m.cmd then valid_fields v else (if is_rpc m.cmd then typed m.arg else no_payload)

  -- The message of a state; `none` stands for the exception of the last branch.
  abbrev pub send_state : State → GprOp V → Option V → Option (GprOp V × List (Action V))
  send_state get_o_put m v = some (m, sent_get ∷ [])
  send_state exec m v = some (m, sent_exec (exec_payload m v) ∷ [])
  send_state done m v =
      let r = notify (record m { registered = false }) in some (r.0, sent_destroy ∷ r.1)
  send_state _ m v = none

  abbrev pub after_build : Option (Option V) → GprOp V → Option (GprOp V × List (Action V))
  after_build none m =
      send_state done
        (record m { state = done; result = failed builder_threw; builder_busy = false }) none
  after_build (some v) m = send_state exec (record m { state = exec; builder_busy = false }) v

  abbrev pub before :
      List (Action V) → Option (GprOp V × List (Action V)) → Option (GprOp V × List (Action V))
  before a none = none
  before a (some r) = some (r.0, a ++ r.1)

module _ {V : Type 0} (vs : Values V) where
  abbrev pub empty_clone : Option V → Option V
  empty_clone none = none
  empty_clone (some v) = some (vs.clone_empty v)

  -- With state BuildPut: the builder is called, and its value is sent.
  abbrev pub build : Option (Option V → Built V) → GprOp V → Option (GprOp V × List (Action V))
  build none m = send_state exec (record m { state = exec }) (empty_clone m.arg)
  build (some f) m =
      let b = f m.arg in
      let r = cancel_if b.cancels (record m { builder_busy = true }) in
      before (builder_called m.arg ∷ r.1) (after_build b.built r.0)

  abbrev pub send_in : State → GprOp V → Option (GprOp V × List (Action V))
  send_in build_put m = build m.builder m
  send_in s m = send_state s m none

  unfoldable pub send_reply : GprOp V → Option (GprOp V × List (Action V))
  unfolding notify
  send_reply m = send_in m.state m

  -- `_reExec`
  unfoldable pub re_exec : GprOp V → Bool → Option (GprOp V × List (Action V))
  unfolding send_reply
  re_exec m is_write = send_reply (record m { state = exec_state m.cmd is_write })

module _ {V : Type 0} where
  abbrev pub create_in : State → GprOp V → GprOp V × List (Action V)
  create_in connecting m = (record m { state = creating }, sent_init ∷ [])
  create_in _ m = (m, [])

  -- `createOp`, and what Channel::createOperations does for an operation before it.
  unfoldable pub create_op : GprOp V → GprOp V × List (Action V)
  create_op m =
      if m.pending
      then create_in m.state (record m { pending = false; registered = true; prototype = none })
      else (m, [])

  abbrev pub return_to_pending : GprOp V → GprOp V × List (Action V)
  return_to_pending m = (record m { pending = true; state = connecting }, [])

  abbrev pub disconnected_in : State → GprOp V → GprOp V × List (Action V)
  disconnected_in connecting m = (m, [])
  disconnected_in done m = (m, [])
  disconnected_in exec m =
      if not (is_get m.cmd) && not m.auto_exec
      then notify (record m { state = done; result = failed lost })
      else return_to_pending m
  disconnected_in build_put m = notify (record m { state = done; result = failed unexpected })
  disconnected_in _ m = return_to_pending m

  -- `disconnected`, which Channel::disconnect calls for what it takes out of opByIOID.
  unfoldable pub disconnected : GprOp V → GprOp V × List (Action V)
  unfolding notify
  disconnected m =
      if m.registered then disconnected_in m.state (record m { registered = false }) else (m, [])
