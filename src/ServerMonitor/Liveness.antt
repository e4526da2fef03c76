-- ===== src/ServerMonitor/Liveness.antt =====
-- src/servermon.cpp: the scheduling of doReply through the calls of an operation's life.
use pvxs.Prelude.{ℕ, Bool, true, false, ◌||◌, not, Option, List, [], ◌∷◌, ltb, if-both, arith}
use pvxs.ServerMonitor.State.{MonitorOp, is_dead}
use pvxs.ServerMonitor.Post.{
  Updates, Posted, do_post, enqueue, set_watermarks, type_fits, is_real, is_null,
}
use pvxs.ServerMonitor.Reply.{Link}
use pvxs.ServerMonitor.Command.{Command, run_low_mark, run_high_mark}
use pvxs.ServerMonitor.Session.{
  Call, connect, error, set_callback, watermarks, post, read_stats, command, cancel, destroy, wake,
  low_mark, high_mark, Callback, start_callback, low_mark_callback, high_mark_callback,
  close_callback, is_creating, run, run_all, connect_op, error_op, set_callback_op, handle_monitor,
  or_else, after_post, after_command, after_watermarks, monitor,
}
use pvxs.ServerMonitor.Wakeup.{
  Awake, Rises, Rouses, maybe_reply-Awake, cleanup-Awake, cancel_request-Awake, do_reply-Awake,
  handle_command-Awake,
}

module _ {V : Type 0} where
  connect_op-Awake : (l : Link) (m : MonitorOp V) → Awake m → Awake (or_else m (connect_op l m)).0
  unfolding connect_op Awake
  connect_op-Awake l m h =
      if-both (λ o. Rises (or_else m o)) (is_creating m.state)
        (λ _. do_reply-Awake l (record m { has_type = true }) h) (λ _. h)

  error_op-Awake : (l : Link) (m : MonitorOp V) → Awake m → Awake (error_op l m).0
  unfolding error_op Awake
  error_op-Awake l m h =
      if-both Rises (is_creating m.state) (λ _. do_reply-Awake l (record m { has_msg = true }) h)
        (λ _. h)

  set_callback_op-Awake :
      (k : Callback) (b : Bool) (m : MonitorOp V) → Awake m → Awake (set_callback_op k b m)
  unfolding set_callback_op Awake
  set_callback_op-Awake start_callback b m h = h
  set_callback_op-Awake low_mark_callback b m h = h
  set_callback_op-Awake high_mark_callback b m h = h
  set_callback_op-Awake close_callback b m h = ground arith

  watermarks-Awake :
      (low high : ℕ) (m : MonitorOp V)
      → Awake m
      → Rises (after_watermarks m (set_watermarks m low high))
  unfolding set_watermarks Awake
  watermarks-Awake low high m h =
      if-both (λ o. Rises (after_watermarks m o)) (ltb high low) (λ _. h) (λ _. h)

  handle_monitor-Awake :
      (m : MonitorOp V) (c : Command)
      → Rouses m c
      → Awake m
      → Rises (after_command m (handle_monitor true true (monitor m) c))
  unfolding handle_monitor
  handle_monitor-Awake m c r h =
      if-both (λ o. Rises (after_command m o)) (is_dead m.state) (λ _. h)
        (λ _.
          if-both (λ o. Rises (after_command m o)) (is_creating m.state || false) (λ _. h)
            (λ _. handle_command-Awake m c r h))

module _ {V : Type 0} (u : Updates V) where
  do_post-Awake :
      (m : MonitorOp V) (val : Option V) (maybe force : Bool)
      → Awake m
      → Rises (after_post m (do_post u m val maybe force))
  unfolding do_post Awake
  do_post-Awake m val maybe force h =
      let P : Posted V → Type 0 = λ o. Rises (after_post m o) in
      if-both P (not (type_fits u m val)) (λ _. h)
        (λ _.
          if-both P m.finished (λ _. h)
            (λ _.
              if-both P (is_real u m val || is_null val)
                (λ _. maybe_reply-Awake (enqueue u (record m { first = false }) val maybe force))
                (λ _. h)))

  -- What the call must be for the theorem: a message rouses the operation, all else may be.
  unfoldable pub Quiet : MonitorOp V → Call V → Type 0
  Quiet m (command c) = Rouses m c
  Quiet m _ = Unit

  run-Awake : (m : MonitorOp V) (c : Call V) → Quiet m c → Awake m → Awake (run u m c).0
  unfolding run Quiet Awake run_low_mark run_high_mark
  run-Awake m (connect l) _ h = connect_op-Awake l m h
  run-Awake m (error l) _ h = error_op-Awake l m h
  run-Awake m (set_callback k b) _ h = set_callback_op-Awake k b m h
  run-Awake m (watermarks low high) _ h = watermarks-Awake low high m h
  run-Awake m (post val maybe force) _ h = do_post-Awake m val maybe force h
  run-Awake m (read_stats true) _ h = h
  run-Awake m (read_stats false) _ h = h
  run-Awake m (command c) r h = handle_monitor-Awake m c r h
  run-Awake m cancel _ h = cancel_request-Awake m h
  run-Awake m destroy _ h = cleanup-Awake m
  run-Awake m (wake l) _ h = do_reply-Awake l m h
  run-Awake m low_mark _ h = h
  run-Awake m high_mark _ h = h

  -- No message of the run opens a window without a start or a stop.
  unfoldable pub AllQuiet : MonitorOp V → List (Call V) → Type 0
  AllQuiet m [] = Unit
  AllQuiet m (c ∷ cs) = Quiet m c × AllQuiet (run u m c).0 cs

  -- If an operation that can send an update is scheduled at the start of a run of calls, and no
  -- message of the run acks without starting or stopping as well, then at the end an operation
  -- that can send an update is scheduled.
  pub run_all-Awake :
      (m : MonitorOp V) (cs : List (Call V)) → AllQuiet m cs → Awake m → Awake (run_all u m cs).0
  unfolding AllQuiet
  run_all-Awake m [] q h = h
  run_all-Awake m (c ∷ cs) q h = run_all-Awake (run u m c).0 cs q.1 (run-Awake m c q.0 h)
