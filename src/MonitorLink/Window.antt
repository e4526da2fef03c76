-- ===== src/MonitorLink/Window.antt =====
-- src/servermon.cpp and src/clientmon.cpp: the flow control of a pipelined subscription.
use pvxs.Prelude.{
  ℕ, ◌+◌, ◌<◌, ◌^◌, ◌≡◌, refl, sym, ◌∙◌, ap, subst, true, false, List, [], ◌∷◌, ◌++◌, length,
  length-append, arith, if-both, not, ◌&&◌, ◌==◌, some,
}
use pvxs.ServerMonitor.State.{MonitorOp, Event, Body}
use pvxs.ServerMonitor.Post.{Updates}
use pvxs.ServerMonitor.Session.{run, post, command, wake}
use pvxs.ServerMonitor.Flow.{replies}
use pvxs.ClientMonitor.State.{Subscription, Action, is_active, pop_entry, tick_ack}
use pvxs.ClientMonitor.Credit.{Credit, receive-Credit, tick_ack-Credit, pop_from-Credit}
use pvxs.MonitorLink.State.{
  Transport, synced, Pair, Move, feed, work, deliver, take, tick, deliver_ack, move, move_all,
  ack_command, served, acks, delivered, acked,
}
use pvxs.MonitorLink.Server.{Updating, post-Quiet, post-Flows, wake-Passes, ack-Acks}
use pvxs.MonitorLink.Steady.{Steady, only_update, move-Steady}
use pvxs.MonitorLink.Client.{receive-Sends, pop-Sends}

abbrev total : List ℕ → ℕ
total [] = 0
total (n ∷ ns) = n + total ns

total-append : (a b : List ℕ) → total (a ++ b) ≡ total a + total b
total-append [] b = omega arith
total-append (n ∷ a) b = omega (arith, total-append a b)

module _ {V : Type 0} where
  -- The client has room for the rest of its window, for what it has not acknowledged and for its
  -- queue; and its window is the server's, with what is on its way in either direction.
  abbrev pub Balanced : Pair V → Type 0
  Balanced s =
      Credit s.client
      × (s.server.pipeline ≡ true)
      × (s.client.window ≡ s.server.window + length s.to_client + total s.to_server)

  -- What is on its way fits in the window.
  in_window : (s : Pair V) → Balanced s → s.client.window < 2 ^ 32
  in_window s h = omega (arith, h.0.3, h.0.4)

module _ {V : Type 0} (u : Updates V) (wire : Transport V) where
  served-Balanced :
      (s : Pair V) (r : MonitorOp V × List (Event V))
      → Balanced s
      → r.0.pipeline ≡ true
      → r.0.window + length (replies r.1) ≡ s.server.window
      → Balanced (served u wire s r)
  served-Balanced s r h p w =
      (h.0, p, omega (arith, h.2, w, length-append s.to_client (replies r.1)))

  acked-Balanced :
      (w : List ℕ) (s : Pair V)
      → s.to_server ≡ w
      → Steady s
      → Balanced s
      → Balanced (acked u wire s w)
  acked-Balanced [] s e h b = b
  acked-Balanced (n ∷ w) s e h b =
      let r = run u s.server (command (ack_command n)) in
      let a = ack-Acks u s.server n h.1 in
      let i = in_window s b in
      (
        b.0,
        a.3 ∙ b.1,
        omega (
          arith,
          b.2,
          i,
          a.4 b.1,
          ap total e,
          ap length a.1,
          length-append s.to_client (replies r.1),
        ),
      )

  delivered-Balanced :
      (w : List (ℕ × Body V)) (s : Pair V)
      → s.to_client ≡ w
      → Steady s
      → Balanced s
      → Balanced (delivered u wire s w)
  delivered-Balanced [] s e h b = b
  delivered-Balanced (x ∷ w) s e h b =
      let p = only_update x (subst Updating e h.2).0 in
      let n = ap length e in
      let v = synced wire s.prototype p.0 in
      let c = receive-Sends u wire s.client v h.3 b.0.0 in
      subst (λ y. Balanced (delivered u wire s (y ∷ w))) (sym p.1)
        (
          receive-Credit u.assign s.client v false (omega (arith, n, b.2)) b.0,
          b.1,
          omega (arith, c.1, n, b.2, total-append s.to_server _, ap total c.0),
        )

  take-Balanced : (s : Pair V) → Balanced s → Balanced (move u wire s take)
  unfolding pop_entry
  take-Balanced s b =
      let c = pop-Sends u wire s.client in
      (
        pop_from-Credit s.client.queue s.client refl b.0,
        b.1,
        omega (
          arith,
          c.1,
          b.2,
          total-append s.to_server (acks (pop_entry s.client true).1),
          ap total c.0,
        ),
      )

  tick-window :
      (s : Pair V)
      → Balanced s
      → (tick_ack s.client).0.window
        ≡ s.server.window + length s.to_client + total (s.to_server ++ acks (tick_ack s.client).1)
  unfolding tick_ack
  tick-window s b =
      let m = s.client in
      let n = s.server.window + length s.to_client in
      if-both
        (λ (r : Subscription V × List Action). r.0.window ≡ n + total (s.to_server ++ acks r.1))
        (is_active m.state && m.pipeline && not (m.unack == 0))
        (λ _. omega (arith, total-append s.to_server (m.unack ∷ []), b.2, b.0.3, b.0.4))
        (λ _. omega (arith, total-append s.to_server [], b.2))

  tick-Balanced : (s : Pair V) → Balanced s → Balanced (move u wire s tick)
  tick-Balanced s b = (tick_ack-Credit s.client b.0, b.1, tick-window s b)

  move-Balanced : (s : Pair V) (c : Move V) → Steady s → Balanced s → Balanced (move u wire s c)
  move-Balanced s (feed v force) h b =
      let r = run u s.server (post (some v) false force) in
      let f = post-Flows u s.server v force in
      let q = post-Quiet u s.server v force h.1 in
      served-Balanced s r b (f.0 ∙ b.1) (omega (arith, f.1, ap length q.1))
  move-Balanced s (work k) h b =
      let p = wake-Passes u u.assign s.server k h.0 h.1 in
      served-Balanced s (run u s.server (wake k)) b (p.3 ∙ b.1) (p.4 b.1)
  move-Balanced s deliver h b = delivered-Balanced s.to_client s refl h b
  move-Balanced s take h b = take-Balanced s b
  move-Balanced s tick h b = tick-Balanced s b
  move-Balanced s deliver_ack h b = acked-Balanced s.to_server s refl h b

  -- On a pipelined subscription with a queueSize below 2^32 that both sides have started, whose
  -- operation keeps its invariant and is not finished, with only updates on their way and in the
  -- client's queue: let updates be posted, or posted by force, and the server's worker, the
  -- client's receiver, the user's pop, the ack timer and the acks run in any order. The client's
  -- window stays the server's window, with the updates and the acks that are on their way, and
  -- with the client's queue and what it has to acknowledge it stays queueSize: the queue has room
  -- for each update on its way.
  pub move_all-Balanced :
      (s : Pair V) (cs : List (Move V)) → Steady s → Balanced s → Balanced (move_all u wire s cs)
  move_all-Balanced s [] h b = b
  move_all-Balanced s (c ∷ cs) h b =
      move_all-Balanced (move u wire s c) cs (move-Steady u wire s c h) (move-Balanced s c h b)
