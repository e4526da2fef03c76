-- ===== src/ServerMonitor/Invariant.antt =====
-- src/servermon.cpp: what holds of an operation through its life.
use pvxs.Prelude.{
  ℕ, ◌≤◌, ◌<◌, ◌^◌, ◌≡◌, refl, Bool, true, false, ◌&&◌, ◌||◌, not, Option, none, some, List, [],
  ◌∷◌, ◌++◌, if◌then◌else◌, if-both, arith, true≢false, sym, cons≢nil,
}
use pvxs.ServerMonitor.State.{
  OpState, creating, idle, executing, dead, MonitorOp, Event, is_dead, is_executing, is_empty,
  nonzero, maybe_reply, can_send, cleanup,
}
use pvxs.ServerMonitor.Post.{squash_back, is_null}
use pvxs.ServerMonitor.Reply.{
  Link, gone, full, ready, do_reply, after_send, send_front, reply_creating, reply_executing,
  reply_front, reply_in, take_window, pop_front, reschedule,
}
use pvxs.ServerMonitor.Command.{Command, handle_command, handle_ack, handle_start, acked, started}

module _ {V : Type 0} where
  -- A null is the last of the queue, and stands there after `finish()` only.
  abbrev pub Ended : Bool → List (Option V) → Type 0
  Ended fin [] = Unit
  Ended fin (none ∷ q) = (fin ≡ true) × (q ≡ [])
  Ended fin (some v ∷ q) = Ended fin q

  -- The limits that the INIT message set, the marks below them, a window of 64 bits, the queue.
  abbrev pub Valid : MonitorOp V → Type 0
  Valid m =
      (2 ≤ m.limit)
      × (1 ≤ m.ack_at)
      × (m.ack_at ≤ m.limit)
      × (m.low ≤ m.high)
      × (m.high < m.ack_at)
      × (m.window < 2 ^ 64)
      × Ended m.finished m.queue

  abbrev pub Keeps : MonitorOp V × List (Event V) → Type 0
  Keeps r = Valid r.0

  pop_front-Ended : (fin : Bool) (q : List (Option V)) → Ended fin q → Ended fin (pop_front q)
  pop_front-Ended fin [] h = h
  pop_front-Ended fin (none ∷ q) h = rw (h.1) tt
  pop_front-Ended fin (some v ∷ q) h = h

  pub push-Ended :
      (q : List (Option V)) (val : Option V) → Ended false q → Ended (is_null val) (q ++ (val ∷ []))
  push-Ended [] none h = (refl, refl)
  push-Ended [] (some v) h = tt
  push-Ended (none ∷ q) val h = absurd (true≢false (sym h.0))
  push-Ended (some v ∷ q) val h = push-Ended q val h

  pub squash_back-Ended :
      (f : V → V → V) (q : List (Option V)) (v : V) (fin : Bool)
      → Ended fin q
      → Ended fin (squash_back f q v)
  unfolding squash_back
  squash_back-Ended f [] v fin h = h
  squash_back-Ended f (none ∷ []) v fin h = h
  squash_back-Ended f (some b ∷ []) v fin h = h
  squash_back-Ended f (none ∷ c ∷ q) v fin h = absurd (cons≢nil h.1)
  squash_back-Ended f (some b ∷ c ∷ q) v fin h = squash_back-Ended f (c ∷ q) v fin h

  pub maybe_reply-Valid : (m : MonitorOp V) → Valid m → Valid (maybe_reply m).0
  unfolding maybe_reply
  maybe_reply-Valid m h = if-both Keeps (not m.scheduled && can_send m) (λ _. h) (λ _. h)

  pub cleanup-Valid : (m : MonitorOp V) → Valid m → Valid (cleanup m).0
  unfolding cleanup
  cleanup-Valid m h = if-both Keeps (is_dead m.state) (λ _. h) (λ _. h)

  take_window-Valid : (m : MonitorOp V) → Valid m → Valid (take_window m).0
  take_window-Valid m h =
      if-both Keeps (is_executing m.state && m.pipeline && nonzero m.window)
        (λ _. (h.0, h.1, h.2, h.3, h.4, omega (arith, h.5), h.6)) (λ _. h)

  reschedule-Valid : (m : MonitorOp V) → Valid m → Valid (reschedule m).0
  reschedule-Valid m h =
      if-both Keeps
        (is_executing m.state
          && not (is_empty m.queue)
          && (not m.pipeline || nonzero m.window || m.finished))
        (λ _. h) (λ _. h)

  after_send-Valid : (m : MonitorOp V) → Valid m → Valid (after_send m).0
  unfolding after_send
  after_send-Valid m h =
      if-both Keeps (is_dead m.state) (λ _. h)
        (λ _. reschedule-Valid (take_window m).0 (take_window-Valid m h))

  reply_creating-Valid : (m : MonitorOp V) → Valid m → Valid (reply_creating m).0
  unfolding reply_creating
  reply_creating-Valid m h =
      after_send-Valid (if m.has_type then (record m { state = idle }, []) else cleanup m).0
        (if-both Keeps m.has_type (λ _. h) (λ _. cleanup-Valid m h))

  send_front-Valid :
      (m : MonitorOp V) (k : ℕ) (ev : List (Event V)) → Valid m → Valid (send_front m k ev).0
  unfolding send_front
  send_front-Valid m k ev h =
      after_send-Valid (record m { queue = pop_front m.queue })
        (h.0, h.1, h.2, h.3, h.4, h.5, pop_front-Ended m.finished m.queue h.6)

  reply_front-Valid : (q : List (Option V)) (m : MonitorOp V) → Valid m → Valid (reply_front q m).0
  reply_front-Valid (none ∷ q) m h = send_front-Valid (cleanup m).0 _ _ (cleanup-Valid m h)
  reply_front-Valid (some v ∷ q) m h = send_front-Valid m 0 [] h
  reply_front-Valid [] m h = send_front-Valid m 0 [] h

  reply_in-Valid : (s : OpState) (m : MonitorOp V) → Valid m → Valid (reply_in s m).0
  unfolding reply_executing
  reply_in-Valid creating m h = reply_creating-Valid m h
  reply_in-Valid idle m h = send_front-Valid m 0 [] h
  reply_in-Valid executing m h =
      if-both Keeps (is_empty m.queue || m.pipeline && not (nonzero m.window) && not m.finished)
        {x = (m, [])} {y = reply_front m.queue m} (λ _. h) (λ _. reply_front-Valid m.queue m h)
  reply_in-Valid dead m h = h

  pub do_reply-Valid : (l : Link) (m : MonitorOp V) → Valid m → Valid (do_reply l m).0
  unfolding do_reply
  do_reply-Valid gone m h = h
  do_reply-Valid full m h = if-both Keeps (is_dead m.state) (λ _. h) (λ _. h)
  do_reply-Valid ready m h = reply_in-Valid m.state (record m { scheduled = false }) h

  acked-Valid : (m : MonitorOp V) (c : Command) → Valid m → Valid (acked m c).0
  unfolding handle_ack
  acked-Valid m c h =
      if-both Keeps (c.ack && m.pipeline) (λ _. (h.0, h.1, h.2, h.3, h.4, omega arith, h.6))
        (λ _. h)

  started-Valid : (m : MonitorOp V) (c : Command) → Valid m → Valid (started m c).0
  unfolding handle_start
  started-Valid m c h =
      if-both Keeps c.start_stop
        (λ _. maybe_reply-Valid (record m { state = if c.start then executing else idle }) h)
        (λ _. h)

  pub handle_command-Valid :
      (m : MonitorOp V) (c : Command) → Valid m → Valid (handle_command m c).0
  unfolding handle_command
  handle_command-Valid m c h =
      let a = acked m c in
      let b = started a.0 c in
      if-both Keeps c.destroy (λ _. cleanup-Valid b.0 (started-Valid a.0 c (acked-Valid m c h)))
        (λ _. started-Valid a.0 c (acked-Valid m c h))
