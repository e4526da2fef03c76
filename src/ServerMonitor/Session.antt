-- ===== src/ServerMonitor/Session.antt =====
-- src/servermon.cpp: ServerMonitorSetup, the guards of `ServerConn::handle_MONITOR`, and the calls
-- that an operation takes in its life, each on its own lock or on the TCP worker.
use pvxs.Prelude.{
  ℕ, Bool, true, false, not, ◌||◌, Option, none, some, List, [], ◌∷◌, ◌++◌, if◌then◌else◌,
}
use pvxs.ServerMonitor.State.{OpState, creating, MonitorOp, Event, is_dead, cleanup, cancel_request}
use pvxs.ServerMonitor.Post.{Updates, Posted, type_changed, posted, do_post, set_watermarks, stats}
use pvxs.ServerMonitor.Reply.{Link, do_reply}
use pvxs.ServerMonitor.Command.{Command, handle_command, run_low_mark, run_high_mark}

abbrev pub is_creating : OpState → Bool
is_creating creating = true
is_creating _ = false

-- What `opByIOID` holds for the message.
pub data Lookup (V : Type 0) : Type 0 where
  missing : Lookup V
  -- whether it is Dead
  other_operation : Bool → Lookup V
  monitor : MonitorOp V → Lookup V

-- `bev.reset()`, a message that is dropped, or an operation that goes on.
pub data Outcome (V : Type 0) : Type 0 where
  disconnected : Outcome V
  ignored : Outcome V
  handled : MonitorOp V → List (Event V) → Outcome V

-- ServerMonitorSetup::onClose and the onStart, onLowMark and onHighMark of ServerMonitorControl.
pub data Callback : Type 0 where
  start_callback low_mark_callback high_mark_callback close_callback : Callback

pub data Call (V : Type 0) : Type 0 where
  connect : Link → Call V
  error : Link → Call V
  set_callback : Callback → Bool → Call V
  watermarks : ℕ → ℕ → Call V
  post : Option V → Bool → Bool → Call V
  read_stats : Bool → Call V
  command : Command → Call V
  cancel : Call V
  destroy : Call V
  wake : Link → Call V
  low_mark : Call V
  high_mark : Call V

module _ {V : Type 0} where
  -- `good`: the message could be read. `same_sid`: its channel is the operation's.
  unfoldable pub handle_monitor : Bool → Bool → Lookup V → Command → Outcome V
  unfolding handle_command
  handle_monitor false same_sid l c = disconnected
  handle_monitor true same_sid missing c = ignored
  handle_monitor true same_sid (other_operation over) c = if over then ignored else disconnected
  handle_monitor true same_sid (monitor m) c =
      if is_dead m.state
      then ignored
      else (if is_creating m.state || not same_sid
          then disconnected
          else (let r = handle_command m c in handled r.0 r.1))

  -- `none` is the exception "Dead Operation".
  unfoldable pub connect_op : Link → MonitorOp V → Option (MonitorOp V × List (Event V))
  connect_op l m =
      if is_creating m.state then some (do_reply l (record m { has_type = true })) else none

  unfoldable pub error_op : Link → MonitorOp V → MonitorOp V × List (Event V)
  error_op l m = if is_creating m.state then do_reply l (record m { has_msg = true }) else (m, [])

  unfoldable pub set_callback_op : Callback → Bool → MonitorOp V → MonitorOp V
  set_callback_op start_callback b m = record m { on_start = b }
  set_callback_op low_mark_callback b m = record m { on_low_mark = b }
  set_callback_op high_mark_callback b m = record m { on_high_mark = b }
  set_callback_op close_callback b m = if is_dead m.state then m else record m { on_close = b }

  abbrev pub or_else :
      MonitorOp V → Option (MonitorOp V × List (Event V)) → MonitorOp V × List (Event V)
  or_else m none = (m, [])
  or_else m (some r) = r

  abbrev pub after_post : MonitorOp V → Posted V → MonitorOp V × List (Event V)
  after_post m type_changed = (m, [])
  after_post m (posted r ev more) = (r, ev)

  abbrev pub after_command : MonitorOp V → Outcome V → MonitorOp V × List (Event V)
  after_command m (handled r ev) = (r, ev)
  after_command m _ = (m, [])

  abbrev pub after_watermarks : MonitorOp V → Option (MonitorOp V) → MonitorOp V × List (Event V)
  after_watermarks m none = (m, [])
  after_watermarks m (some r) = (r, [])

module _ {V : Type 0} (u : Updates V) where
  unfoldable pub run : MonitorOp V → Call V → MonitorOp V × List (Event V)
  unfolding handle_monitor connect_op error_op set_callback_op do_post do_reply cleanup
      cancel_request run_low_mark run_high_mark
  run m (connect l) = or_else m (connect_op l m)
  run m (error l) = error_op l m
  run m (set_callback k b) = (set_callback_op k b m, [])
  run m (watermarks low high) = after_watermarks m (set_watermarks m low high)
  run m (post val maybe force) = after_post m (do_post u m val maybe force)
  run m (read_stats reset) = ((stats m reset).1, [])
  run m (command c) = after_command m (handle_monitor true true (monitor m) c)
  run m cancel = cancel_request m
  run m destroy = cleanup m
  run m (wake l) = do_reply l m
  run m low_mark = run_low_mark m
  run m high_mark = run_high_mark m

  abbrev pub run_all : MonitorOp V → List (Call V) → MonitorOp V × List (Event V)
  run_all m [] = (m, [])
  run_all m (c ∷ cs) = let r = run m c in let rest = run_all r.0 cs in (rest.0, r.1 ++ rest.1)
