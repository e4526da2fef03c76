-- ===== src/ServerMonitor/Stop.antt =====
-- src/servermon.cpp: a STOP message that arrives between `maybeReply` and `doReply`.
use pvxs.Prelude.{
  arith, ◌≡◌, refl, ap, ◌∙◌, true, false, Bool, ◌&&◌, not, some, Option, List, [], ◌∷◌, ◌++◌,
  if◌then◌else◌, if-both,
}
use pvxs.ServerMonitor.State.{
  executing, idle, MonitorOp, Event, update, start_called, is_dead, is_executing, can_send, reply,
  maybe_reply,
}
use pvxs.ServerMonitor.Post.{Updates}
use pvxs.ServerMonitor.Reply.{ready, do_reply, after_send, front_body, send_front}
use pvxs.ServerMonitor.Command.{Command, handle_command, handle_start}
use pvxs.ServerMonitor.Session.{command, wake, run, run_all, is_creating, handle_monitor}
use pvxs.ServerMonitor.Flow.{replies, replies-append}

abbrev pub stop : Command
stop = record { ack = false; start_stop = true; start = false; destroy = false; nack = 0 }

module _ {V : Type 0} (u : Updates V) where
  -- The stopped operation, and what a stop calls.
  abbrev stopped : MonitorOp V → MonitorOp V × List (Event V)
  stopped m = (
    record m { state = idle },
    ((if m.on_start then start_called false ∷ [] else []) ++ []) ++ [],
  )

  idle_quiet : (m : MonitorOp V) → m.state ≡ idle → maybe_reply m ≡ (m, [])
  unfolding maybe_reply
  idle_quiet m i =
      if-both (λ (r : MonitorOp V × List (Event V)). r ≡ (m, [])) (not m.scheduled && can_send m)
        (λ c. absurd (closed _ _ _ _ (ap is_executing i) c)) (λ _. refl)
    where
      closed : (a b c d : Bool) → b ≡ false → (a && (b && c && d)) ≡ true → ⊥
      closed a b c d e h = ground arith

  run-stop : (m : MonitorOp V) → m.state ≡ executing → run u m (command stop) ≡ stopped m
  unfolding run handle_monitor handle_command handle_start
  run-stop m st =
      rw (ap is_dead st, ap is_creating st, idle_quiet (record m { state = idle }) refl) refl

  calls-replies :
      (b : Bool) → replies {V = V} (((if b then start_called false ∷ [] else []) ++ []) ++ []) ≡ []
  calls-replies true = refl
  calls-replies false = refl

  -- When an Executing operation with an update at the front is stopped, and doReply runs after
  -- that, the update is sent and the window stays as it was.
  pub stop-sends :
      (m : MonitorOp V) (v : V) (q : List (Option V))
      → m.state ≡ executing
      → m.queue ≡ some v ∷ q
      → (replies (run_all u m (command stop ∷ wake ready ∷ [])).1 ≡ (0, update v) ∷ [])
        × ((run_all u m (command stop ∷ wake ready ∷ [])).0.window ≡ m.window)
  unfolding run do_reply send_front after_send
  stop-sends m v q st e = rw (run-stop m st) (
    replies-append (stopped m).1 (reply 0 (front_body m.queue) ∷ [])
        ∙ ap (λ x. x ++ ((0, front_body m.queue) ∷ [])) (calls-replies m.on_start)
        ∙ ap (λ x. (0, front_body x) ∷ []) e,
    refl,
  )
