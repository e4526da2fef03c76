-- ===== src/MonitorLink/Steady.antt =====
-- src/servermon.cpp and src/clientmon.cpp: a subscription that both sides have started stays so.
use pvxs.Prelude.{ℕ, ◌≡◌, refl, sym, subst, true, false, some, List, [], ◌∷◌}
use pvxs.ServerMonitor.State.{MonitorOp, Event, Body, update}
use pvxs.ServerMonitor.Post.{Updates}
use pvxs.ServerMonitor.Session.{run, post, command, wake}
use pvxs.ServerMonitor.Invariant.{Valid}
use pvxs.ServerMonitor.Lifetime.{run-Valid}
use pvxs.ServerMonitor.Flow.{replies}
use pvxs.ClientMonitor.State.{is_active}
use pvxs.MonitorLink.State.{
  Transport, synced, Pair, Move, feed, work, deliver, take, tick, deliver_ack, move, ack_command,
  served, delivered, acked,
}
use pvxs.MonitorLink.Server.{Live, Updating, Updating-append, post-Quiet, wake-Passes, ack-Acks}
use pvxs.MonitorLink.Client.{tick-Carries, pop-Carries, receive-active}

module _ {V : Type 0} where
  -- The operation keeps its invariant and is started, not finished and not ended, the subscription
  -- has the server's INIT, and updates only are on their way.
  abbrev pub Steady : Pair V → Type 0
  Steady s =
      Valid s.server × Live s.server × Updating s.to_client × (is_active s.client.state ≡ true)

  pub only_update :
      (x : ℕ × Body V) → (x.0 ≡ 0) × (v : V) × (x.1 ≡ update v) → (v : V) × (x ≡ (0, update v))
  only_update (k, b) (p, v, q) = (v, rw (p, q) refl)

module _ {V : Type 0} (u : Updates V) (wire : Transport V) where
  served-Steady :
      (s : Pair V) (r : MonitorOp V × List (Event V))
      → Steady s
      → Valid r.0
      → Live r.0
      → Updating (replies r.1)
      → Steady (served u wire s r)
  served-Steady s r h v l w = (v, l, Updating-append s.to_client (replies r.1) h.2 w, h.3)

  acked-Steady : (w : List ℕ) (s : Pair V) → Steady s → Steady (acked u wire s w)
  acked-Steady [] s h = h
  acked-Steady (n ∷ w) s h =
      let c = command (ack_command n) in
      let a = ack-Acks u s.server n h.1 in
      served-Steady s (run u s.server c) h (run-Valid u s.server c h.0) a.0
        (subst Updating (sym a.1) tt)

  delivered-Steady :
      (w : List (ℕ × Body V)) (s : Pair V)
      → s.to_client ≡ w
      → Steady s
      → Steady (delivered u wire s w)
  delivered-Steady [] s e h = h
  delivered-Steady (x ∷ w) s e h =
      let g = subst Updating e h.2 in
      let p = only_update x g.0 in
      subst (λ y. Steady (delivered u wire s (y ∷ w))) (sym p.1)
        (h.0, h.1, g.1, receive-active u wire s.client (synced wire s.prototype p.0) h.3)

  pub move-Steady : (s : Pair V) (c : Move V) → Steady s → Steady (move u wire s c)
  move-Steady s (feed v force) h =
      let c = post (some v) false force in
      let q = post-Quiet u s.server v force h.1 in
      served-Steady s (run u s.server c) h (run-Valid u s.server c h.0) q.0
        (subst Updating (sym q.1) tt)
  move-Steady s (work k) h =
      let p = wake-Passes u u.assign s.server k h.0 h.1 in
      served-Steady s (run u s.server (wake k)) h (run-Valid u s.server (wake k) h.0) p.0 p.1
  move-Steady s deliver h = delivered-Steady s.to_client s refl h
  move-Steady s take h = (h.0, h.1, h.2, (pop-Carries u wire s.client s.seen h.3).0)
  move-Steady s tick h = (h.0, h.1, h.2, (tick-Carries u wire s.client s.seen h.3).0)
  move-Steady s deliver_ack h = acked-Steady s.to_server s h
