-- ===== src/ServerMonitor/Reply.antt =====
-- src/servermon.cpp: `MonitorOp::doReply`, on the TCP worker.
use pvxs.Prelude.{
  ℕ, ◌-◌, true, false, ◌&&◌, ◌||◌, not, Option, none, some, List, [], ◌∷◌, ◌++◌, leb, if◌then◌else◌,
}
use pvxs.ServerMonitor.State.{
  OpState, creating, idle, executing, dead, MonitorOp, Body, init_error, init_type, update, finish,
  no_body, Event, reply, dispatch_reply, backlog_reply, dispatch_low_mark, is_executing, is_dead,
  is_empty, nonzero, cleanup,
}

-- The connection: gone, or with a full output buffer, or ready.
pub data Link : Type 0 where
  gone full ready : Link

abbrev pub subcmd_init : ℕ
subcmd_init = 0x08

abbrev pub subcmd_destroy : ℕ
subcmd_destroy = 0x10

module _ {V : Type 0} where
  -- The message about the front of the queue, and the queue behind it.
  abbrev pub front_body : List (Option V) → Body V
  front_body [] = no_body
  front_body (none ∷ q) = finish
  front_body (some v ∷ q) = update v

  abbrev pub pop_front : List (Option V) → List (Option V)
  pop_front [] = []
  pop_front (v ∷ q) = q

  -- One update leaves, and the window closes by one; the low mark is reported once.
  abbrev pub take_window : MonitorOp V → MonitorOp V × List (Event V)
  take_window m =
      if is_executing m.state && m.pipeline && nonzero m.window
      then (let w = m.window - 1 in
          let mark = not m.low_mark_pending && leb w m.low && m.on_low_mark in
          (
            record m { window = w; low_mark_pending = m.low_mark_pending || mark },
            if mark then dispatch_low_mark ∷ [] else [],
          ))
      else (m, [])

  abbrev pub reschedule : MonitorOp V → MonitorOp V × List (Event V)
  reschedule m =
      if is_executing m.state
        && not (is_empty m.queue)
        && (not m.pipeline || nonzero m.window || m.finished)
      then (record m { scheduled = true }, dispatch_reply ∷ [])
      else (m, [])

  -- What is done after a message is sent.
  unfoldable pub after_send : MonitorOp V → MonitorOp V × List (Event V)
  after_send m =
      if is_dead m.state
      then (m, [])
      else (let a = take_window m in let b = reschedule a.0 in (b.0, a.1 ++ b.1))

  -- A message with the front of the queue, and what follows.
  unfoldable pub send_front : MonitorOp V → ℕ → List (Event V) → MonitorOp V × List (Event V)
  unfolding after_send
  send_front m subcmd before =
      let r = after_send (record m { queue = pop_front m.queue }) in
      (r.0, before ++ (reply subcmd (front_body m.queue) ∷ r.1))

  -- The reply to INIT: it leaves the queue alone.
  unfoldable pub reply_creating : MonitorOp V → MonitorOp V × List (Event V)
  unfolding cleanup after_send
  reply_creating m =
      let c = if m.has_type then (record m { state = idle }, []) else cleanup m in
      let body = if m.has_msg || not m.has_type then init_error else init_type in
      let r = after_send c.0 in (r.0, c.1 ++ (reply subcmd_init body ∷ r.1))

  abbrev pub reply_front : List (Option V) → MonitorOp V → MonitorOp V × List (Event V)
  reply_front (none ∷ q) m = let c = cleanup m in send_front c.0 subcmd_destroy c.1
  reply_front _ m = send_front m 0 []

  unfoldable pub reply_executing : MonitorOp V → MonitorOp V × List (Event V)
  unfolding cleanup send_front
  reply_executing m =
      if is_empty m.queue || (m.pipeline && not (nonzero m.window) && not m.finished)
      then (m, [])
      else reply_front m.queue m

  abbrev pub reply_in : OpState → MonitorOp V → MonitorOp V × List (Event V)
  reply_in creating m = reply_creating m
  reply_in idle m = send_front m 0 []
  reply_in executing m = reply_executing m
  reply_in dead m = (m, [])

  unfoldable pub do_reply : Link → MonitorOp V → MonitorOp V × List (Event V)
  unfolding reply_creating reply_executing send_front
  do_reply gone m = (m, [])
  do_reply full m =
      if is_dead m.state
      then (record m { scheduled = false }, [])
      else (record m { scheduled = true }, backlog_reply ∷ [])
  do_reply ready m = reply_in m.state (record m { scheduled = false })
