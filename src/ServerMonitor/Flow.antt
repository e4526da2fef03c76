-- ===== src/ServerMonitor/Flow.antt =====
-- src/servermon.cpp: what `MonitorOp::doReply` sends, in which order, and what it takes off the window.
use pvxs.Prelude.{
  ℕ, ◌<◌, ◌-◌, ◌≡◌, refl, ◌∙◌, ap, Bool, true, false, ◌&&◌, ◌||◌, not, Option, some, List, [], ◌∷◌,
  ◌++◌, if◌then◌else◌, if-both, arith,
}
use pvxs.ServerMonitor.State.{
  executing, MonitorOp, Event, reply, dispatch_reply, backlog_reply, start_called,
  dispatch_low_mark, dispatch_high_mark, low_mark_called, high_mark_called, close_called, Body,
  update, is_dead, is_executing, is_empty, nonzero,
}
use pvxs.ServerMonitor.Reply.{
  ready, do_reply, after_send, send_front, reply_executing, reply_front, reply_in, take_window,
  pop_front, front_body, reschedule,
}

module _ {V : Type 0} where
  -- The messages among what a call does.
  abbrev pub replies : List (Event V) → List (ℕ × Body V)
  replies [] = []
  replies (reply k b ∷ ev) = (k, b) ∷ replies ev
  replies (e ∷ ev) = replies ev

  pub replies-append : (a b : List (Event V)) → replies (a ++ b) ≡ replies a ++ replies b
  replies-append [] b = refl
  replies-append (reply k c ∷ a) b = ap (◌∷◌ (k, c)) (replies-append a b)
  replies-append (dispatch_reply ∷ a) b = replies-append a b
  replies-append (backlog_reply ∷ a) b = replies-append a b
  replies-append (start_called x ∷ a) b = replies-append a b
  replies-append (dispatch_low_mark ∷ a) b = replies-append a b
  replies-append (dispatch_high_mark ∷ a) b = replies-append a b
  replies-append (low_mark_called ∷ a) b = replies-append a b
  replies-append (high_mark_called ∷ a) b = replies-append a b
  replies-append (close_called ∷ a) b = replies-append a b

  abbrev pub window_after : MonitorOp V → ℕ
  window_after m = if m.pipeline then m.window - 1 else m.window

  -- Nothing is sent, and the state, the queue, the pipelining and whether it is finished stay.
  abbrev Silent : MonitorOp V → ℕ → MonitorOp V × List (Event V) → Type 0
  Silent m w r =
      (replies r.1 ≡ [])
      × (r.0.queue ≡ m.queue)
      × (r.0.state ≡ m.state)
      × (r.0.pipeline ≡ m.pipeline)
      × (r.0.window ≡ w)
      × (r.0.finished ≡ m.finished)

  mark-replies : (b : Bool) → replies (if b then dispatch_low_mark ∷ [] else []) ≡ []
  mark-replies true = refl
  mark-replies false = refl

  shut :
      (m : MonitorOp V)
      → m.state ≡ executing
      → (is_executing m.state && m.pipeline && nonzero m.window) ≡ false
      → m.window ≡ window_after m
  shut m st = rw st (λ c. ground arith)

  take_window-Silent :
      (m : MonitorOp V) → m.state ≡ executing → Silent m (window_after m) (take_window m)
  take_window-Silent m st =
      if-both (Silent m (window_after m)) (is_executing m.state && m.pipeline && nonzero m.window)
        (λ c. (mark-replies _, refl, refl, refl, ground arith, refl))
        (λ c. (refl, refl, refl, refl, shut m st c, refl))

  reschedule-Silent : (m : MonitorOp V) → Silent m m.window (reschedule m)
  reschedule-Silent m =
      if-both (Silent m m.window)
        (is_executing m.state
          && not (is_empty m.queue)
          && (not m.pipeline || nonzero m.window || m.finished))
        (λ _. (refl, refl, refl, refl, refl, refl)) (λ _. (refl, refl, refl, refl, refl, refl))

  after_send-Silent :
      (m : MonitorOp V) → m.state ≡ executing → Silent m (window_after m) (after_send m)
  unfolding after_send
  after_send-Silent m st =
      let t = take_window-Silent m st in
      let r = reschedule-Silent (take_window m).0 in
      rw (ap is_dead st) (
        replies-append (take_window m).1 (reschedule (take_window m).0).1 ∙ rw (t.0, r.0) refl,
        r.1 ∙ t.1,
        r.2 ∙ t.2,
        r.3 ∙ t.3,
        r.4 ∙ t.4,
        r.5 ∙ t.5,
      )

  send_front_lem :
      (m : MonitorOp V) (k : ℕ)
      → m.state ≡ executing
      → (replies (send_front m k []).1 ≡ (k, front_body m.queue) ∷ [])
        × ((send_front m k []).0.queue ≡ pop_front m.queue)
        × ((send_front m k []).0.state ≡ executing)
        × ((send_front m k []).0.pipeline ≡ m.pipeline)
        × ((send_front m k []).0.window ≡ window_after m)
        × ((send_front m k []).0.finished ≡ m.finished)
  unfolding send_front
  send_front_lem m k st =
      let s = after_send-Silent (record m { queue = pop_front m.queue }) st in
      (ap (◌∷◌ (k, front_body m.queue)) s.0, s.1, s.2 ∙ st, s.3, s.4, s.5)

  -- The window, where there is one, is open.
  abbrev pub Open : MonitorOp V → Type 0
  Open m = m.pipeline ≡ true → 0 < m.window

  pub open_lem :
      (m : MonitorOp V) → Open m → (m.pipeline && not (nonzero m.window) && not m.finished) ≡ false
  open_lem m o = ground arith

  abbrev pub awoken : MonitorOp V → MonitorOp V
  awoken m = record m { scheduled = false }

  pub ready-executing :
      (m : MonitorOp V) → m.state ≡ executing → do_reply ready m ≡ reply_executing (awoken m)
  unfolding do_reply
  ready-executing m st = ap (λ s. reply_in s (awoken m)) st

  pub reply_executing-front :
      (m : MonitorOp V)
      → is_empty m.queue ≡ false
      → (m.pipeline && not (nonzero m.window) && not m.finished) ≡ false
      → reply_executing m ≡ reply_front m.queue m
  unfolding reply_executing
  reply_executing-front m e c = ap (λ b. if b then (m, []) else reply_front m.queue m) (either e c)
    where
      either : {a b : Bool} → a ≡ false → b ≡ false → (a || b) ≡ false
      either {a} {b} p q = rw (p, q) refl

  ready-front :
      (m : MonitorOp V) (v : V) (q : List (Option V))
      → m.state ≡ executing
      → m.queue ≡ some v ∷ q
      → Open m
      → do_reply ready m ≡ send_front (awoken m) 0 []
  ready-front m v q st e o =
      ready-executing m st
      ∙ reply_executing-front (awoken m) (ap is_empty e) (open_lem m o)
      ∙ ap (λ x. reply_front x (awoken m)) e

  -- What one update that is sent comes to.
  abbrev pub Sent : MonitorOp V → V → List (Option V) → MonitorOp V × List (Event V) → Type 0
  Sent m v q r =
      (replies r.1 ≡ (0, update v) ∷ [])
      × (r.0.queue ≡ q)
      × (r.0.state ≡ executing)
      × (r.0.pipeline ≡ m.pipeline)
      × (r.0.window ≡ window_after m)
      × (r.0.finished ≡ m.finished)

  -- On an Executing operation with an update at the front, and an open window if pipelined,
  -- doReply sends that update and no other message, takes it off the queue, and takes one off the
  -- window of a pipelined operation.
  pub do_reply-sends :
      (m : MonitorOp V) (v : V) (q : List (Option V))
      → m.state ≡ executing
      → m.queue ≡ some v ∷ q
      → Open m
      → Sent m v q (do_reply ready m)
  do_reply-sends m v q st e o =
      let s = send_front_lem (awoken m) 0 st in
      rw (ready-front m v q st e o)
        (s.0 ∙ ap (λ x. (0, front_body x) ∷ []) e, s.1 ∙ ap pop_front e, s.2, s.3, s.4, s.5)

  -- On an Executing pipelined operation with a closed window, before finish(), doReply sends
  -- nothing and only ends the scheduling.
  pub do_reply-holds :
      (m : MonitorOp V)
      → m.state ≡ executing
      → m.pipeline ≡ true
      → m.window ≡ 0
      → m.finished ≡ false
      → do_reply ready m ≡ (record m { scheduled = false }, [])
  unfolding reply_executing
  do_reply-holds m st p w f =
      ready-executing m st
      ∙ ap (λ b. if is_empty m.queue || b then (awoken m, []) else reply_front m.queue (awoken m))
          (rw (p, w, f) refl)
      ∙ or_true (is_empty m.queue)
    where
      or_true :
          (b : Bool)
          → (if b || true then (awoken m, []) else reply_front m.queue (awoken m)) ≡ (awoken m, [])
      or_true true = refl
      or_true false = refl
