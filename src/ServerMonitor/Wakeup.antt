-- ===== src/ServerMonitor/Wakeup.antt =====
-- src/servermon.cpp: when an operation that may send an update is scheduled to do so.
use pvxs.Prelude.{
  ℕ, ◌+◌, ◌<◌, ◌%◌, ◌^◌, ◌≡◌, refl, Bool, true, false, ◌&&◌, ◌||◌, not, Option, none, some, List,
  [], ◌∷◌, if◌then◌else◌, if-both, arith,
}
use pvxs.ServerMonitor.State.{
  OpState, creating, idle, executing, dead, MonitorOp, Event, is_empty, nonzero, can_send,
  maybe_reply, cleanup, cancel_request,
}
use pvxs.ServerMonitor.Reply.{
  Link, gone, full, ready, do_reply, after_send, send_front, reply_creating, reply_executing,
  reply_front, reply_in,
}
use pvxs.ServerMonitor.Command.{
  Command, handle_ack, handle_start, handle_command, acked, started, ended,
}

nonzero-mod : (n : ℕ) → 0 < n → n < 2 ^ 64 → nonzero ((0 + n) % 2 ^ 64) ≡ true
nonzero-mod n lo hi = ground arith

module _ {V : Type 0} where
  -- An operation that may send is scheduled.
  unfoldable pub Awake : MonitorOp V → Type 0
  Awake m = can_send m ≡ true → m.scheduled ≡ true

  abbrev pub Rises : MonitorOp V × List (Event V) → Type 0
  Rises r = Awake r.0

  pub maybe_reply-Awake : (m : MonitorOp V) → Awake (maybe_reply m).0
  unfolding maybe_reply Awake
  maybe_reply-Awake m = ground arith

  after_send-Awake : (m : MonitorOp V) → Awake (after_send m).0
  unfolding after_send Awake
  after_send-Awake m = ground arith

  pub cleanup-Awake : (m : MonitorOp V) → Awake (cleanup m).0
  unfolding cleanup Awake
  cleanup-Awake m = ground arith

  pub cancel_request-Awake : (m : MonitorOp V) → Awake m → Awake (cancel_request m).0
  unfolding cancel_request Awake
  cancel_request-Awake m h = ground arith

  reply_creating-Awake : (m : MonitorOp V) → Awake (reply_creating m).0
  unfolding reply_creating
  reply_creating-Awake m =
      after_send-Awake (if m.has_type then (record m { state = idle }, []) else cleanup m).0

  reply_front-Awake : (q : List (Option V)) (m : MonitorOp V) → Awake (reply_front q m).0
  unfolding send_front
  reply_front-Awake (none ∷ q) m = after_send-Awake (record (cleanup m).0 { queue = _ })
  reply_front-Awake (some v ∷ q) m = after_send-Awake (record m { queue = _ })
  reply_front-Awake [] m = after_send-Awake (record m { queue = _ })

  -- Nothing to send: the window is closed, or the queue empty.
  reply_executing-Awake : (m : MonitorOp V) → Awake (reply_executing m).0
  unfolding reply_executing Awake
  reply_executing-Awake m =
      if-both Rises (is_empty m.queue || m.pipeline && not (nonzero m.window) && not m.finished)
        {x = (m, [])} {y = reply_front m.queue m} (λ c. ground arith)
        (λ c. reply_front-Awake m.queue m)

  reply_in-Awake : (s : OpState) (m : MonitorOp V) → m.state ≡ s → Awake (reply_in s m).0
  unfolding send_front Awake
  reply_in-Awake creating m h = reply_creating-Awake m
  reply_in-Awake idle m h = after_send-Awake (record m { queue = _ })
  reply_in-Awake executing m h = reply_executing-Awake m
  reply_in-Awake dead m h = rw h (λ c. ground arith)

  pub do_reply-Awake : (l : Link) (m : MonitorOp V) → Awake m → Awake (do_reply l m).0
  unfolding do_reply Awake
  do_reply-Awake gone m h = h
  do_reply-Awake full m h = ground arith
  do_reply-Awake ready m h = reply_in-Awake m.state (record m { scheduled = false }) refl

  handle_start-Awake : (m : MonitorOp V) (start : Bool) → Awake (handle_start m start).0
  unfolding handle_start
  handle_start-Awake m start =
      maybe_reply-Awake (record m { state = if start then executing else idle })

  -- The message opens no window, or starts or stops the operation as well.
  unfoldable pub Rouses : MonitorOp V → Command → Type 0
  Rouses m c = (c.ack && m.pipeline && not c.start_stop) ≡ false

  ack-Rouses :
      (m : MonitorOp V) (c : Command)
      → Rouses m c
      → c.start_stop ≡ false
      → (c.ack && m.pipeline) ≡ false
  unfolding Rouses
  ack-Rouses m c r h = ground arith

  started-Awake :
      (m : MonitorOp V) (c : Command) → (c.start_stop ≡ false → Awake m) → Awake (started m c).0
  started-Awake m c h = if-both Rises c.start_stop (λ _. handle_start-Awake m c.start) h

  ended-Awake : (m : MonitorOp V) (c : Command) → Awake m → Awake (ended m c).0
  ended-Awake m c h = if-both Rises c.destroy (λ _. cleanup-Awake m) (λ _. h)

  acked_same : (m : MonitorOp V) (c : Command) → (c.ack && m.pipeline) ≡ false → (acked m c).0 ≡ m
  acked_same m c h = rw h refl

  pub handle_command-Awake :
      (m : MonitorOp V) (c : Command) → Rouses m c → Awake m → Awake (handle_command m c).0
  unfolding handle_command
  handle_command-Awake m c r h =
      ended-Awake (started (acked m c).0 c).0 c
        (started-Awake (acked m c).0 c (λ quiet. rw (acked_same m c (ack-Rouses m c r quiet)) h))

  -- A message that only acks, with a count from 1 to 2^64 - 1, on a pipelined Executing operation
  -- that has a closed window, an entry in its queue and nothing scheduled, leaves it able to send
  -- and still unscheduled.
  pub handle_ack-stalls :
      (m : MonitorOp V) (c : Command)
      → m.state ≡ executing
      → m.scheduled ≡ false
      → is_empty m.queue ≡ false
      → m.window ≡ 0
      → m.pipeline ≡ true
      → c.ack ≡ true
      → c.start_stop ≡ false
      → c.destroy ≡ false
      → 0 < c.nack
      → c.nack < 2 ^ 64
      → (can_send (handle_command m c).0 ≡ true) × ((handle_command m c).0.scheduled ≡ false)
  unfolding handle_command handle_ack
  handle_ack-stalls m c st sc q w p ack ss d lo hi =
      rw (p, ack, ss, d, st, w, q, nonzero-mod c.nack lo hi) (refl, sc)
