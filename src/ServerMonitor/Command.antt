-- ===== src/ServerMonitor/Command.antt =====
-- src/servermon.cpp: `ServerConn::handle_MONITOR`, on an operation that was found for the message.
-- The flags of the subcommand, and the count of an ack, come decoded.
use pvxs.Prelude.{
  ℕ, ◌+◌, ◌%◌, ◌^◌, Bool, true, false, ◌&&◌, not, Option, none, some, List, [], ◌∷◌, ◌++◌, ltb, leb,
  ◌==◌, min, max, ◌/◌, if◌then◌else◌,
}
use pvxs.ServerMonitor.State.{
  creating, idle, executing, MonitorOp, Event, dispatch_high_mark, low_mark_called,
  high_mark_called, start_called, maybe_reply, cleanup,
}

-- subcmd & 0x80, & 0x04, & 0x40 and & 0x10.
pub record Command : Type 0 where
  pub ack : Bool
  pub start_stop : Bool
  pub start : Bool
  pub destroy : Bool
  pub nack : ℕ

module _ {V : Type 0} where
  unfoldable pub handle_ack : MonitorOp V → ℕ → MonitorOp V × List (Event V)
  handle_ack m nack =
      let w = (m.window + nack) % 2 ^ 64 in
      let mark = not m.high_mark_pending && ltb m.high w && m.on_high_mark && not m.finished in
      (
        record m { window = w; high_mark_pending = if mark then true else m.high_mark_pending },
        if mark then dispatch_high_mark ∷ [] else [],
      )

  unfoldable pub handle_start : MonitorOp V → Bool → MonitorOp V × List (Event V)
  unfolding maybe_reply
  handle_start m start =
      let r = maybe_reply (record m { state = if start then executing else idle }) in
      (r.0, (if m.on_start then start_called start ∷ [] else []) ++ r.1)

  abbrev pub acked : MonitorOp V → Command → MonitorOp V × List (Event V)
  acked m c = if c.ack && m.pipeline then handle_ack m c.nack else (m, [])

  abbrev pub started : MonitorOp V → Command → MonitorOp V × List (Event V)
  started m c = if c.start_stop then handle_start m c.start else (m, [])

  -- The operation leaves the maps at once. `cleanup` is dispatched, and runs at once here: a doReply
  -- that waits on the worker ahead of it comes before the command.
  abbrev pub ended : MonitorOp V → Command → MonitorOp V × List (Event V)
  ended m c = if c.destroy then cleanup m else (m, [])

  unfoldable pub handle_command : MonitorOp V → Command → MonitorOp V × List (Event V)
  unfolding handle_ack handle_start cleanup
  handle_command m c =
      let a = acked m c in
      let b = started a.0 c in let d = ended b.0 c in (d.0, a.1 ++ (b.1 ++ d.1))

  -- The dispatched callbacks.
  unfoldable pub run_low_mark : MonitorOp V → MonitorOp V × List (Event V)
  run_low_mark m =
      (record m { low_mark_pending = false }, if m.on_low_mark then low_mark_called ∷ [] else [])

  unfoldable pub run_high_mark : MonitorOp V → MonitorOp V × List (Event V)
  run_high_mark m = (
    record m { high_mark_pending = false },
    if not m.finished && m.on_high_mark then high_mark_called ∷ [] else [],
  )

-- `record._options.ackAny`: absent, a number, a percentage (as the number of updates that the
-- floating point gives for it), a text that is neither, or a value that has no form as a text, for
-- which `as<std::string>` throws.
pub data AckAny : Type 0 where
  absent : AckAny
  count : ℕ → AckAny
  percent : ℕ → AckAny
  unreadable : AckAny
  no_text : AckAny

-- The options of a pvRequest; the inner `none` is a value that cannot be converted.
pub record Options : Type 0 where
  pub pipeline : Option (Option Bool)
  pub queue_size : Option (Option ℕ)
  pub ack_any : AckAny

abbrev pub default_limit : ℕ
default_limit = 4

abbrev pub wants_pipeline : Option (Option Bool) → Bool
wants_pipeline (some (some v)) = v
wants_pipeline _ = false

-- `none` is the return for an invalid queueSize.
abbrev pub queue_limit : Bool → Option (Option ℕ) → Option ℕ
queue_limit pipe none = some default_limit
queue_limit pipe (some none) = if pipe then none else some default_limit
queue_limit pipe (some (some q)) =
    if leb 2 q then some q else (if pipe then none else some default_limit)

-- `none` is the exception.
abbrev pub asked_ack : AckAny → Option ℕ
asked_ack absent = some 1
asked_ack (count n) = some n
asked_ack (percent n) = some n
asked_ack unreadable = some 1
asked_ack no_text = none

-- What an INIT message comes to: an operation, or the return after `ctrl->error`, whose work finds
-- the operation gone and so tells the client nothing, or an exception, which ends the connection.
pub data Init (V : Type 0) : Type 0 where
  refused : Init V
  threw : Init V
  opened : MonitorOp V → Init V

unfoldable pub clamp_ack : ℕ → ℕ → ℕ
clamp_ack asked limit = max 1 (min (if asked == 0 then limit / 2 else asked) limit)

abbrev pub new_op : {V : Type 0} → Bool → ℕ → ℕ → ℕ → MonitorOp V
new_op pipe limit ack_at nack = record {
  state = creating;
  on_start = false;
  on_low_mark = false;
  on_high_mark = false;
  on_cancel = true;
  on_close = false;
  low_mark_pending = false;
  high_mark_pending = false;
  has_type = false;
  has_msg = false;
  scheduled = false;
  pipeline = pipe;
  first = true;
  finished = false;
  window = nack;
  limit = limit;
  low = 0;
  high = 0;
  ack_at = ack_at;
  max_queue = 0;
  n_squash = 0;
  queue = [];
}

-- Under `if(op->pipeline)`.
abbrev pub open_pipeline : {V : Type 0} → ℕ → ℕ → Option ℕ → Init V
open_pipeline limit nack none = threw
open_pipeline limit nack (some n) = opened (new_op true limit (clamp_ack n limit) nack)

-- The rest of the INIT subcommand, once the limit is known.
unfoldable pub init_limit : {V : Type 0} → Bool → AckAny → ℕ → Option ℕ → Init V
unfolding clamp_ack
init_limit pipe ack nack none = refused
init_limit true ack nack (some limit) = open_pipeline limit nack (asked_ack ack)
init_limit false ack nack (some limit) = opened (new_op false limit 1 nack)

-- The INIT subcommand.
unfoldable pub handle_init : {V : Type 0} → Options → ℕ → Init V
unfolding init_limit
handle_init o nack =
    let pipe = wants_pipeline o.pipeline in
    init_limit pipe o.ack_any nack (queue_limit pipe o.queue_size)
