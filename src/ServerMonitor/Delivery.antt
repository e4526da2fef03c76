-- ===== src/ServerMonitor/Delivery.antt =====
-- src/servermon.cpp: a queue that is drained by `MonitorOp::doReply`, and the end of a subscription.
use pvxs.Prelude.{
  ℕ, suc, ◌≤◌, ◌-◌, ◌≡◌, refl, sym, ◌∙◌, ap, Bool, true, false, ◌&&◌, ◌||◌, not, Option, none, some,
  List, [], ◌∷◌, ◌++◌, map, length, replicate, if◌then◌else◌, if-both, ltb, arith,
}
use pvxs.ServerMonitor.State.{
  OpState, executing, dead, MonitorOp, Event, reply, update, finish, is_dead, can_send,
  is_executing, is_empty, cleanup, cancel_callback, close_called, cancel_request, maybe_reply,
}
use pvxs.ServerMonitor.Post.{
  Updates, Posted, do_post, enqueue, set_watermarks, type_fits, is_real, is_null, squash,
}
use pvxs.ServerMonitor.Reply.{
  gone, full, ready, do_reply, after_send, send_front, reply_front, reply_in, subcmd_destroy,
  pop_front, front_body,
}
use pvxs.ServerMonitor.Command.{run_low_mark, run_high_mark}
use pvxs.ServerMonitor.Session.{
  Call, connect, error, set_callback, watermarks, post, read_stats, command, cancel, destroy, wake,
  low_mark, high_mark, start_callback, low_mark_callback, high_mark_callback, close_callback,
  is_creating, run, run_all, connect_op, error_op, set_callback_op, handle_monitor, after_post,
  after_watermarks,
}
use pvxs.ServerMonitor.Flow.{
  replies, replies-append, window_after, do_reply-sends, awoken, ready-executing,
  reply_executing-front,
}

module _ {V : Type 0} (u : Updates V) where
  -- The window, where there is one, has room for that many.
  abbrev pub Room : MonitorOp V → ℕ → Type 0
  Room m n = m.pipeline ≡ true → n ≤ m.window

  abbrev pub wakes : ℕ → List (Call V)
  wakes n = replicate n (wake ready)

  Room-Sent :
      (m : MonitorOp V) (n w : ℕ) (p : Bool)
      → Room m (suc n)
      → p ≡ m.pipeline
      → w ≡ window_after m
      → p ≡ true
      → n ≤ w
  Room-Sent m n w p r e f h =
      let q = sym e ∙ h in
      let g = f ∙ ap (λ b. if b then m.window - 1 else m.window) q in omega (arith, g, r q)

  -- While the operation is Executing with only updates queued, and its window, if pipelined, has
  -- room for them all, as many runs of doReply as there are updates send every one, in the order
  -- posted and once each, and leave the queue empty.
  pub run_all-drains :
      (vs : List V) (m : MonitorOp V)
      → m.state ≡ executing
      → m.queue ≡ map some vs
      → Room m (length vs)
      → (replies (run_all u m (wakes (length vs))).1 ≡ map (λ v. (0, update v)) vs)
        × ((run_all u m (wakes (length vs))).0.queue ≡ [])
  unfolding run
  run_all-drains [] m st e r = (refl, e)
  run_all-drains (v ∷ vs) m st e r =
      let s = do_reply-sends m v (map some vs) st e (λ p. omega (arith, r p)) in
      let d = run_all-drains vs (do_reply ready m).0 s.2 s.1 (
        Room-Sent m (length vs) (do_reply ready m).0.window (do_reply ready m).0.pipeline r s.3
          s.4) in
      (
        replies-append (do_reply ready m).1 (run_all u (do_reply ready m).0 (wakes (length vs))).1
            ∙ rw (s.0, d.0) refl,
        d.1,
      )

  -- A dead operation stays dead, and sends nothing.
  abbrev pub Over : MonitorOp V × List (Event V) → Type 0
  Over r = (r.0.state ≡ dead) × (replies r.1 ≡ [])

  abbrev Mute : List (Event V) → Type 0
  Mute ev = replies ev ≡ []

  maybe_reply-Over : (m : MonitorOp V) → m.state ≡ dead → Over (maybe_reply m)
  unfolding maybe_reply
  maybe_reply-Over m d =
      if-both Over (not m.scheduled && can_send m) (λ _. (d, refl)) (λ _. (d, refl))

  enqueue_state :
      (m : MonitorOp V) (val : Option V) (maybe force : Bool)
      → (enqueue u m val maybe force).state ≡ m.state
  unfolding enqueue
  enqueue_state m val maybe force =
      if-both Stays (ltb (length m.queue) m.limit || force || is_null val) (λ _. refl)
        (λ _. if-both Stays (not maybe) (λ _. squashed val) (λ _. refl))
    where
      Stays : MonitorOp V → Type 0
      Stays r = r.state ≡ m.state

      squashed : (o : Option V) → Stays (squash u m o)
      squashed none = refl
      squashed (some v) = refl

  do_post-Over :
      (m : MonitorOp V) (val : Option V) (maybe force : Bool)
      → m.state ≡ dead
      → Over (after_post m (do_post u m val maybe force))
  unfolding do_post
  do_post-Over m val maybe force d =
      let P : Posted V → Type 0 = λ o. Over (after_post m o) in
      let m1 = record m { first = false } in
      if-both P (not (type_fits u m val)) (λ _. (d, refl))
        (λ _.
          if-both P m.finished (λ _. (d, refl))
            (λ _.
              if-both P (is_real u m val || is_null val)
                (λ _.
                  maybe_reply-Over (enqueue u m1 val maybe force)
                    (enqueue_state m1 val maybe force ∙ d))
                (λ _. (d, refl))))

  -- After the end, whatever is called.
  run-Over : (m : MonitorOp V) (c : Call V) → m.state ≡ dead → Over (run u m c)
  unfolding run connect_op error_op handle_monitor do_reply cleanup cancel_request set_callback_op
      set_watermarks run_low_mark run_high_mark
  run-Over m (connect l) d = rw (ap is_creating d) (d, refl)
  run-Over m (error l) d = rw (ap is_creating d) (d, refl)
  run-Over m (set_callback start_callback b) d = (d, refl)
  run-Over m (set_callback low_mark_callback b) d = (d, refl)
  run-Over m (set_callback high_mark_callback b) d = (d, refl)
  run-Over m (set_callback close_callback b) d = rw (ap is_dead d) (d, refl)
  run-Over m (watermarks low high) d =
      if-both (λ o. Over (after_watermarks m o)) (ltb high low) (λ _. (d, refl)) (λ _. (d, refl))
  run-Over m (post val maybe force) d = do_post-Over m val maybe force d
  run-Over m (read_stats true) d = (d, refl)
  run-Over m (read_stats false) d = (d, refl)
  run-Over m (command c) d = rw (ap is_dead d) (d, refl)
  run-Over m cancel d = rw (ap is_executing d) (d, refl)
  run-Over m destroy d = rw (ap is_dead d) (d, refl)
  run-Over m (wake gone) d = (d, refl)
  run-Over m (wake full) d = rw (ap is_dead d) (d, refl)
  run-Over m (wake ready) d = rw (ap (λ s. reply_in s (awoken m)) d) (d, refl)
  run-Over m low_mark d = (d, if-both Mute m.on_low_mark (λ _. refl) (λ _. refl))
  run-Over m high_mark d =
      (d, if-both Mute (not m.finished && m.on_high_mark) (λ _. refl) (λ _. refl))

  pub run_all-Over : (m : MonitorOp V) (cs : List (Call V)) → m.state ≡ dead → Over (run_all u m cs)
  run_all-Over m [] d = (d, refl)
  run_all-Over m (c ∷ cs) d =
      let r = run-Over m c d in
      let rest = run_all-Over (run u m c).0 cs r.0 in
      (rest.0, replies-append (run u m c).1 (run_all u (run u m c).0 cs).1 ∙ rw (r.1, rest.1) refl)

  cancel_callback-Mute : (m : MonitorOp V) (s : OpState) → Mute (cancel_callback m s)
  cancel_callback-Mute m s = if-both Mute (is_executing s && m.on_start) (λ _. refl) (λ _. refl)

  append-Mute : (a b : List (Event V)) → Mute a → Mute b → Mute (a ++ b)
  append-Mute a b p q = replies-append a b ∙ rw (p, q) refl

  died : (s : OpState) → is_dead s ≡ true → s ≡ dead
  died s e = ground arith

  cleanup-Over : (m : MonitorOp V) → Over (cleanup m)
  unfolding cleanup
  cleanup-Over m =
      if-both Over (is_dead m.state) (λ d. (died m.state d, refl))
        (λ _. (
          refl,
          append-Mute
              (if m.on_cancel && is_executing m.state then cancel_callback m m.state else [])
              (if m.on_close then close_called ∷ [] else [])
              (if-both Mute (m.on_cancel && is_executing m.state)
                (λ _. cancel_callback-Mute m m.state) (λ _. refl))
              (if-both Mute m.on_close (λ _. refl) (λ _. refl)),
        ))

  cleanup-queue : (m : MonitorOp V) → (cleanup m).0.queue ≡ m.queue
  unfolding cleanup
  cleanup-queue m =
      if-both (λ (r : MonitorOp V × List (Event V)). r.0.queue ≡ m.queue) (is_dead m.state)
        (λ _. refl) (λ _. refl)

  after_send-dead : (m : MonitorOp V) → m.state ≡ dead → after_send m ≡ (m, [])
  unfolding after_send
  after_send-dead m d = rw (ap is_dead d) refl

  finish_front :
      (m : MonitorOp V) (q : List (Option V))
      → m.queue ≡ none ∷ q
      → ((reply_front (none ∷ q) m).0.state ≡ dead)
        × (replies (reply_front (none ∷ q) m).1 ≡ (subcmd_destroy, finish) ∷ [])
  unfolding send_front
  finish_front m q e =
      let c = cleanup m in
      let m1 : MonitorOp V = record c.0 { queue = pop_front c.0.queue } in
      let o = cleanup-Over m in
      let a = after_send-dead m1 o.0 in
      (
        ap (λ (r : MonitorOp V × List (Event V)). r.0.state) a ∙ o.0,
        replies-append c.1 (reply subcmd_destroy (front_body c.0.queue) ∷ (after_send m1).1)
            ∙ ap (λ x. x ++ ((subcmd_destroy, front_body c.0.queue) ∷ replies (after_send m1).1))
                o.1
            ∙ ap (λ x. (subcmd_destroy, front_body x) ∷ replies (after_send m1).1)
                (cleanup-queue m ∙ e)
            ∙ ap (λ (r : MonitorOp V × List (Event V)). (subcmd_destroy, finish) ∷ replies r.1) a,
      )

  -- When an Executing operation on which finish() was called has the null at the front of its
  -- queue, doReply sends one finish message, and whatever is called afterwards sends nothing more.
  pub run_all-finishes :
      (m : MonitorOp V) (q : List (Option V)) (cs : List (Call V))
      → m.state ≡ executing
      → m.queue ≡ none ∷ q
      → m.finished ≡ true
      → replies (run_all u m (wake ready ∷ cs)).1 ≡ (subcmd_destroy, finish) ∷ []
  unfolding run
  run_all-finishes m q cs st e f =
      let eq =
        ready-executing m st
        ∙ reply_executing-front (awoken m) (ap is_empty e) (rw f (ground arith))
        ∙ ap (λ x. reply_front x (awoken m)) e in
      let z = finish_front (awoken m) q e in
      let r = do_reply ready m in
      let over =
        run_all-Over r.0 cs (ap (λ (x : MonitorOp V × List (Event V)). x.0.state) eq ∙ z.0) in
      replies-append r.1 (run_all u r.0 cs).1
      ∙ ap (λ x. replies r.1 ++ x) over.1
      ∙ ap (λ (x : MonitorOp V × List (Event V)). replies x.1 ++ []) eq
      ∙ ap (λ x. x ++ []) z.1
