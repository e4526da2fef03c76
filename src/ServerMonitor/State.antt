-- ===== src/ServerMonitor/State.antt =====
-- src/servermon.cpp: the state of a MonitorOp, what its calls bring about, and `cleanup`.
-- An update is a value of any type; the null Value, which ends a subscription, is `none`.
use pvxs.Prelude.{
  ℕ, zero, suc, Bool, true, false, ◌&&◌, ◌||◌, not, Option, List, [], ◌∷◌, ◌++◌, if◌then◌else◌,
}

-- ServerOp::state_t (src/serverconn.h).
pub data OpState : Type 0 where
  creating idle executing dead : OpState

abbrev pub is_executing : OpState → Bool
is_executing executing = true
is_executing _ = false

abbrev pub is_dead : OpState → Bool
is_dead dead = true
is_dead _ = false

pub record MonitorOp (V : Type 0) : Type 0 where
  pub state : OpState
  -- whether onStart, onLowMark, onHighMark, onCancel and onClose are set
  pub on_start : Bool
  pub on_low_mark : Bool
  pub on_high_mark : Bool
  pub on_cancel : Bool
  pub on_close : Bool
  pub low_mark_pending : Bool
  pub high_mark_pending : Bool
  -- whether the type is set, and whether an error message is
  pub has_type : Bool
  pub has_msg : Bool
  pub scheduled : Bool
  pub pipeline : Bool
  pub first : Bool
  pub finished : Bool
  pub window : ℕ
  pub limit : ℕ
  pub low : ℕ
  pub high : ℕ
  pub ack_at : ℕ
  pub max_queue : ℕ
  pub n_squash : ℕ
  pub queue : List (Option V)

-- What follows the subcommand in a message to the client.
pub data Body (V : Type 0) : Type 0 where
  init_error : Body V
  init_type : Body V
  update : V → Body V
  finish : Body V
  no_body : Body V

-- What a call does outside the operation.
pub data Event (V : Type 0) : Type 0 where
  reply : ℕ → Body V → Event V
  dispatch_reply : Event V
  backlog_reply : Event V
  start_called : Bool → Event V
  dispatch_low_mark : Event V
  dispatch_high_mark : Event V
  low_mark_called : Event V
  high_mark_called : Event V
  close_called : Event V

-- `bool(window)`
abbrev pub nonzero : ℕ → Bool
nonzero zero = false
nonzero (suc n) = true

module _ {V : Type 0} where
  abbrev pub is_empty : List (Option V) → Bool
  is_empty [] = true
  is_empty (v ∷ q) = false

  -- Whether an update may be sent: the condition of `maybeReply`, less `scheduled`.
  abbrev pub can_send : MonitorOp V → Bool
  can_send m =
      is_executing m.state && not (is_empty m.queue) && (not m.pipeline || nonzero m.window)

  unfoldable pub maybe_reply : MonitorOp V → MonitorOp V × List (Event V)
  maybe_reply m =
      if not m.scheduled && can_send m
      then (record m { scheduled = true }, dispatch_reply ∷ [])
      else (m, [])

  -- The onCancel that the constructor sets.
  abbrev pub cancel_callback : MonitorOp V → OpState → List (Event V)
  cancel_callback m s = if is_executing s && m.on_start then start_called false ∷ [] else []

  -- `ServerOp::cleanup` (src/serverconn.cpp), and then the callbacks are released.
  unfoldable pub cleanup : MonitorOp V → MonitorOp V × List (Event V)
  cleanup m =
      let released = record m { on_start = false; on_low_mark = false; on_high_mark = false } in
      if is_dead m.state then (released, []) else (
        record m {
          state = dead;
          on_start = false;
          on_low_mark = false;
          on_high_mark = false;
          on_cancel = false;
          on_close = false;
        },
        (if m.on_cancel && is_executing m.state then cancel_callback m m.state else [])
            ++ (if m.on_close then close_called ∷ [] else []),
      )

  -- `ServerConn::handle_CANCEL_REQUEST` (src/serverconn.cpp): the state is Idle when onCancel runs.
  unfoldable pub cancel_request : MonitorOp V → MonitorOp V × List (Event V)
  cancel_request m =
      if is_executing m.state
      then (record m { state = idle }, if m.on_cancel then cancel_callback m idle else [])
      else (m, [])
