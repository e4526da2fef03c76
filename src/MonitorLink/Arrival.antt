-- ===== src/MonitorLink/Arrival.antt =====
-- src/servermon.cpp and src/clientmon.cpp: the updates that are posted, and what the user has of them.
use pvxs.Prelude.{ℕ, ◌≡◌, refl, sym, ◌∙◌, ap, subst, true, false, Option, some, List, [], ◌∷◌, ◌++◌}
use pvxs.ServerMonitor.State.{MonitorOp, Event, Body, update}
use pvxs.ServerMonitor.Post.{Updates}
use pvxs.ServerMonitor.Session.{run, post, command, wake}
use pvxs.ServerMonitor.Flow.{replies}
use pvxs.ServerMonitor.Queue
use pvxs.ClientMonitor.State.{Subscription, Action, pop_entry, tick_ack}
use pvxs.ClientMonitor.Squash
use pvxs.MonitorLink.State.{
  Transport, synced, Pair, Move, feed, work, deliver, take, tick, deliver_ack, move, move_all,
  ack_command, served, used, view, delivered, acked,
}
use pvxs.MonitorLink.Server.{
  Updating, with_post, post-Quiet, post-merged, wake-Passes, ack-Acks, arriving, arriving-append,
}
use pvxs.MonitorLink.Steady.{Steady, only_update, move-Steady}
use pvxs.MonitorLink.Client.{Carries, tick-Carries, pop-Carries, receive-merged}

module _ {V : Type 0} (u : Updates V) (wire : Transport V) where
  -- What the user has, once an update that was posted is taken in: the fields of it that are sent.
  abbrev act : V → V → V
  act a v = u.assign a (wire.carried v)

  -- What the client has: the user's value and its queue.
  abbrev at_client : Pair V → V
  at_client s = pvxs.ClientMonitor.Squash.merged u.assign s.seen s.client.queue

  -- What the server's queue comes to, after what is on its way.
  abbrev after_queue : Pair V → List (ℕ × Body V) → List (Option V) → V
  after_queue s w q = pvxs.ServerMonitor.Queue.merged act (arriving u act (at_client s) w) q

  -- What there is in all: on the client's side, on its way, and in the server's queue.
  abbrev whole : Pair V → V
  whole s = after_queue s s.to_client s.server.queue

  -- The value with a move's post, where it is one, taken in.
  abbrev posted_to : Pair V → Move V → V → V
  posted_to s (feed v force) a = with_post u act s.server v a
  posted_to s _ a = a

  -- The value with each post of the moves taken in that the server does not refuse.
  abbrev posted_all : Pair V → List (Move V) → V → V
  posted_all s [] a = a
  posted_all s (c ∷ cs) a = posted_all (move u wire s c) cs (posted_to s c a)

  served-whole :
      (s : Pair V) (r : MonitorOp V × List (Event V)) (w : List (ℕ × Body V))
      → replies r.1 ≡ w
      → whole (served u wire s r)
        ≡ pvxs.ServerMonitor.Queue.merged act
            (arriving u act (arriving u act (at_client s) s.to_client) w)
            r.0.queue
  served-whole s r w e =
      ap (λ x. after_queue s (s.to_client ++ x) r.0.queue) e
      ∙ ap (λ a. pvxs.ServerMonitor.Queue.merged act a r.0.queue)
          (arriving-append u act s.to_client w (at_client s))

  acked-whole : (w : List ℕ) (s : Pair V) → Steady s → whole (acked u wire s w) ≡ whole s
  acked-whole [] s h = refl
  acked-whole (n ∷ w) s h =
      let r = run u s.server (command (ack_command n)) in
      let a = ack-Acks u s.server n h.1 in
      served-whole s r [] a.1 ∙ ap (after_queue s s.to_client) a.2

  -- A call on the client's side after which it has what it had.
  use-whole :
      (s : Pair V) (r : Subscription V × List Action) (b : V)
      → Carries u wire s.client s.seen b r.0
      → whole (record (used u wire s r) { seen = b }) ≡ whole s
  use-whole s r b c =
      ap (λ a. pvxs.ServerMonitor.Queue.merged act (arriving u act a s.to_client) s.server.queue)
        c.1

  -- From here on: taking values in is associative; what is sent of a value that took in another is
  -- what is sent of the one, with what is sent of the other taken in; and what cache_sync fills in
  -- is not marked, so that it is not taken in.
  module _ (assoc : (a b c : V) → u.assign (u.assign a b) c ≡ u.assign a (u.assign b c))
      (carries : (a b : V)
        → wire.carried (u.assign a b) ≡ u.assign (wire.carried a) (wire.carried b))
      (syncs : (p a v : V) → u.assign a (wire.cache_sync p v).1 ≡ u.assign a v) where
    act-assign : (a b c : V) → act a (u.assign b c) ≡ act (act a b) c
    act-assign a b c =
        ap (u.assign a) (carries b c) ∙ sym (assoc a (wire.carried b) (wire.carried c))

    update-whole :
        (s : Pair V) (v : V) (w : List (ℕ × Body V))
        → s.to_client ≡ (0, update v) ∷ w
        → Steady s
        → whole (delivered u wire s ((0, update v) ∷ w)) ≡ whole s
    update-whole s v w e h =
        let q = s.server.queue in
        ap (λ a. pvxs.ServerMonitor.Queue.merged act (arriving u act a w) q)
          (receive-merged u wire s.client s.seen (synced wire s.prototype v) assoc h.3
            ∙ syncs s.prototype (at_client s) (wire.carried v))
        ∙ sym (ap (λ x. after_queue s x q) e)

    delivered-whole :
        (w : List (ℕ × Body V)) (s : Pair V)
        → s.to_client ≡ w
        → Steady s
        → whole (delivered u wire s w) ≡ whole s
    delivered-whole [] s e h = refl
    delivered-whole (x ∷ w) s e h =
        let p = only_update x (subst Updating e h.2).0 in
        subst (λ y. whole (delivered u wire s (y ∷ w)) ≡ whole s) (sym p.1)
          (update-whole s p.0 w (e ∙ ap (λ y. y ∷ w) p.1) h)

    move-whole :
        (s : Pair V) (c : Move V) → Steady s → whole (move u wire s c) ≡ posted_to s c (whole s)
    move-whole s (feed v force) h =
        served-whole s (run u s.server (post (some v) false force)) []
          (post-Quiet u s.server v force h.1).1
        ∙ post-merged u act s.server v (arriving u act (at_client s) s.to_client) force act-assign
            h.0 h.1
    move-whole s (work k) h =
        served-whole s (run u s.server (wake k)) _ refl
        ∙ (wake-Passes u act s.server k h.0 h.1).2 (arriving u act (at_client s) s.to_client)
    move-whole s deliver h = delivered-whole s.to_client s refl h
    move-whole s take h =
        let r = pop_entry s.client true in
        use-whole s (r.0, r.1) (view u wire s.seen r.2) (pop-Carries u wire s.client s.seen h.3)
    move-whole s tick h =
        use-whole s (tick_ack s.client) s.seen (tick-Carries u wire s.client s.seen h.3)
    move-whole s deliver_ack h = acked-whole s.to_server s h

    move_all-whole :
        (s : Pair V) (cs : List (Move V))
        → Steady s
        → whole (move_all u wire s cs) ≡ posted_all s cs (whole s)
    move_all-whole s [] h = refl
    move_all-whole s (c ∷ cs) h =
        move_all-whole (move u wire s c) cs (move-Steady u wire s c h)
        ∙ ap (posted_all (move u wire s c) cs) (move-whole s c h)

    -- Nothing is queued, and nothing on its way.
    abbrev Drained : Pair V → Type 0
    Drained s = (s.server.queue ≡ []) × (s.to_client ≡ []) × (s.client.queue ≡ [])

    -- Where taking values in is associative, what is sent under pvMask of a value that took in
    -- another is what is sent of the one with what is sent of the other taken in, and what
    -- cache_sync fills in is not taken in: on a subscription that both sides have started, whose
    -- operation keeps its invariant and is not finished, with only updates on their way, let
    -- updates be posted, or posted by force, and the server's worker, the client's receiver, the
    -- user's pop, the ack timer and the acks run in any order. Whenever both queues are empty and
    -- nothing is on its way, the user's value is the one from the start, with what is sent under
    -- pvMask of each update that waited then and of each later post that the server does not
    -- refuse taken in, in their order, squashed or not.
    pub move_all-seen :
        (s : Pair V) (cs : List (Move V))
        → Steady s
        → Drained (move_all u wire s cs)
        → (move_all u wire s cs).seen ≡ posted_all s cs (whole s)
    move_all-seen s cs h d =
        let r = move_all u wire s cs in
        sym (
          ap (after_queue r r.to_client) d.0
          ∙ ap (arriving u act (at_client r)) d.1
          ∙ ap (pvxs.ClientMonitor.Squash.merged u.assign r.seen) d.2)
        ∙ move_all-whole s cs h
