-- ===== src/ClientMonitor/Session.antt =====
-- src/clientmon.cpp: the calls that a subscription takes, from the user, its channel and its timer.
use pvxs.Prelude.{ℕ, Bool, true, Option, none, some, List, [], ◌∷◌, ◌++◌}
use pvxs.ClientMonitor.State.{
  Subscription, Action, pause, create_op, disconnected, tick_ack, cancel, pop_entry, do_pop,
}
use pvxs.ClientMonitor.Receive.{Message, handle_message}

pub data Call (V : Type 0) : Type 0 where
  set_pause : Bool → Call V
  create : Call V
  drop_connection : Call V
  tick : Call V
  stop : Call V
  pop : Call V
  pop_many : ℕ → Call V
  receive : Message V → Call V

module _ {V : Type 0} (assign : V → V → V) where
  -- A message that is refused drops the connection, and `disconnected` is called for that by itself.
  abbrev pub or_dropped :
      Subscription V → Option (Subscription V × List Action) → Subscription V × List Action
  or_dropped m none = (m, [])
  or_dropped m (some r) = r

  unfoldable pub run : Subscription V → Call V → Subscription V × List Action
  unfolding pause create_op disconnected tick_ack cancel pop_entry do_pop handle_message
  run m (set_pause p) = pause m p
  run m create = create_op m
  run m drop_connection = disconnected m
  run m tick = tick_ack m
  run m stop = let r = cancel m in (r.0, r.1)
  run m pop = let r = pop_entry m true in (r.0, r.1)
  run m (pop_many n) = let r = do_pop m n in (r.0, r.1)
  run m (receive msg) = or_dropped m (handle_message assign m msg)

  abbrev pub run_all : Subscription V → List (Call V) → Subscription V × List Action
  run_all m [] = (m, [])
  run_all m (c ∷ cs) = let r = run m c in let rest = run_all r.0 cs in (rest.0, r.1 ++ rest.1)
