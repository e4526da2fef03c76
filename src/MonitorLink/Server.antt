-- ===== src/MonitorLink/Server.antt =====
-- src/servermon.cpp: what the moves of a subscription bring about on the server's side.
use pvxs.Prelude.{
  ℕ, ◌+◌, ◌-◌, ◌%◌, ◌^◌, ◌≡◌, refl, sym, ◌∙◌, ap, subst, Bool, true, false, true≢false, ◌&&◌, ◌||◌,
  not, Option, none, some, List, [], ◌∷◌, ◌++◌, if◌then◌else◌, if-both, Bool-cases, inl, inr, arith,
  length, ltb,
}
use pvxs.ServerMonitor.State.{
  executing, MonitorOp, Event, Body, update, is_dead, is_empty, nonzero, maybe_reply, can_send,
  dispatch_high_mark,
}
use pvxs.ServerMonitor.Post.{
  Updates, Posted, type_changed, posted, do_post, enqueue, type_fits, is_real,
}
use pvxs.ServerMonitor.Reply.{Link, gone, full, ready, do_reply, reply_executing}
use pvxs.ServerMonitor.Command.{handle_command, handle_ack}
use pvxs.ServerMonitor.Session.{
  Outcome, run, post, command, wake, after_post, after_command, handle_monitor, is_creating,
}
use pvxs.ServerMonitor.Invariant.{Ended, Valid}
use pvxs.ServerMonitor.Flow.{replies, Open, do_reply-sends, do_reply-holds, ready-executing}
use pvxs.ServerMonitor.Queue.{merged, TakesIn, do_post-TakesIn}
use pvxs.MonitorLink.State.{ack_command}

module _ {V : Type 0} where
  -- An operation that the client started, and that is neither finished nor ended.
  abbrev pub Live : MonitorOp V → Type 0
  Live m = (m.state ≡ executing) × (m.finished ≡ false)

  -- A call that sends nothing, to an operation that stays Live.
  abbrev pub Quiet : MonitorOp V × List (Event V) → Type 0
  Quiet r = Live r.0 × (replies r.1 ≡ [])

  maybe_reply-Quiet : (m : MonitorOp V) → Live m → Quiet (maybe_reply m)
  unfolding maybe_reply
  maybe_reply-Quiet m h =
      if-both Quiet (not m.scheduled && can_send m) (λ _. (h, refl)) (λ _. (h, refl))

  -- The messages are updates, which go to the operation that was started.
  abbrev pub Updating : List (ℕ × Body V) → Type 0
  Updating [] = Unit
  Updating ((k, b) ∷ w) = ((k ≡ 0) × (v : V) × (b ≡ update v)) × Updating w

  pub Updating-append : (a b : List (ℕ × Body V)) → Updating a → Updating b → Updating (a ++ b)
  Updating-append [] b g h = h
  Updating-append (x ∷ a) b g h = (g.0, Updating-append a b g.1 h)

module _ {V : Type 0} (u : Updates V) where
  enqueue-Live :
      (m : MonitorOp V) (v : V) (force : Bool) → Live m → Live (enqueue u m (some v) false force)
  unfolding enqueue
  enqueue-Live m v force h =
      if-both Live (ltb (length m.queue) m.limit || force || false) (λ _. (h.0, refl)) (λ _. h)

  pub post-Quiet :
      (m : MonitorOp V) (v : V) (force : Bool)
      → Live m
      → Quiet (run u m (post (some v) false force))
  unfolding run do_post
  post-Quiet m v force h =
      let P : Posted V → Type 0 = λ o. Quiet (after_post m o) in
      let m1 = record m { first = false } in
      if-both P (not (type_fits u m (some v))) (λ _. (h, refl))
        (λ _.
          if-both P m.finished (λ _. (h, refl))
            (λ _.
              if-both P (is_real u m (some v) || false)
                (λ _.
                  maybe_reply-Quiet (enqueue u m1 (some v) false force) (enqueue-Live m1 v force h))
                (λ _. (h, refl))))

  -- The pipelining, and the window.
  abbrev Flows : MonitorOp V → MonitorOp V → Type 0
  Flows m r = (r.pipeline ≡ m.pipeline) × (r.window ≡ m.window)

  reply-Flows : (m r : MonitorOp V) → Flows m r → Flows m (maybe_reply r).0
  unfolding maybe_reply
  reply-Flows m r h =
      if-both (λ (x : MonitorOp V × List (Event V)). Flows m x.0) (not r.scheduled && can_send r)
        (λ _. h) (λ _. h)

  enqueue-Flows :
      (m : MonitorOp V) (v : V) (force : Bool) → Flows m (enqueue u m (some v) false force)
  unfolding enqueue
  enqueue-Flows m v force =
      if-both (Flows m) (ltb (length m.queue) m.limit || force || false) (λ _. (refl, refl))
        (λ _. (refl, refl))

  pub post-Flows :
      (m : MonitorOp V) (v : V) (force : Bool) → Flows m (run u m (post (some v) false force)).0
  unfolding run do_post
  post-Flows m v force =
      let P : Posted V → Type 0 = λ o. Flows m (after_post m o).0 in
      let m1 = record m { first = false } in
      if-both P (not (type_fits u m (some v))) (λ _. (refl, refl))
        (λ _.
          if-both P m.finished (λ _. (refl, refl))
            (λ _.
              if-both P (is_real u m (some v) || false)
                (λ _. reply-Flows m (enqueue u m1 (some v) false force) (enqueue-Flows m1 v force))
                (λ _. (refl, refl))))

  -- An ack that comes opens the window, leaves the queue alone, and sends nothing.
  mark-replies :
      (b : Bool) → replies {V = V} ((if b then dispatch_high_mark ∷ [] else []) ++ []) ≡ []
  mark-replies true = refl
  mark-replies false = refl

  abbrev Acks : MonitorOp V → ℕ → MonitorOp V × List (Event V) → Type 0
  Acks m n r =
      Live r.0
      × (replies r.1 ≡ [])
      × (r.0.queue ≡ m.queue)
      × (r.0.pipeline ≡ m.pipeline)
      × (m.pipeline ≡ true → r.0.window ≡ (m.window + n) % 2 ^ 64)

  command-Acks : (m : MonitorOp V) (n : ℕ) → Live m → Acks m n (handle_command m (ack_command n))
  unfolding handle_command handle_ack
  command-Acks m n l =
      if-both
        (λ (r : MonitorOp V × List (Event V)).
          ((r.0.state ≡ executing) × (r.0.finished ≡ false))
          × (replies (r.1 ++ []) ≡ [])
          × (r.0.queue ≡ m.queue)
          × (r.0.pipeline ≡ m.pipeline)
          × (m.pipeline ≡ true → r.0.window ≡ (m.window + n) % 2 ^ 64))
        m.pipeline (λ _. (l, mark-replies _, refl, refl, λ _. refl))
        (λ c. (l, refl, refl, refl, λ p. absurd (true≢false (sym p ∙ c))))

  pub ack-Acks : (m : MonitorOp V) (n : ℕ) → Live m → Acks m n (run u m (command (ack_command n)))
  unfolding run handle_monitor
  ack-Acks m n l =
      let P : Outcome V → Type 0 = λ o. Acks m n (after_command m o) in
      if-both P (is_dead m.state) (λ c. absurd (true≢false (sym c ∙ ap is_dead l.0)))
        (λ _.
          if-both P (is_creating m.state || false)
            (λ c. absurd (true≢false (sym c ∙ ap (λ s. is_creating s || false) l.0)))
            (λ _. command-Acks m n l))

-- Where a value that is posted is put, in the end, into another by `act`.
module _ {V : Type 0} (u : Updates V) (act : V → V → V) where
  -- Whether a post is taken in, and the value once it is.
  abbrev pub with_post : MonitorOp V → V → V → V
  with_post m v a = if type_fits u m (some v) && is_real u m (some v) then act a v else a

  ignored-merged :
      (m : MonitorOp V) (v a : V) (force : Bool)
      → (type_fits u m (some v) && is_real u m (some v)) ≡ false
      → merged act a (run u m (post (some v) false force)).0.queue ≡ merged act a m.queue
  unfolding run do_post
  ignored-merged m v a force c =
      let P : Posted V → Type 0 =
        λ o. merged act a (after_post m o).0.queue ≡ merged act a m.queue in
      if-both P (not (type_fits u m (some v))) (λ _. refl)
        (λ t.
          if-both P m.finished (λ _. refl)
            (λ _.
              if-both P (is_real u m (some v) || false)
                (λ r. absurd (clash (type_fits u m (some v)) (is_real u m (some v)) c t r))
                (λ _. refl)))
    where
      clash : (x y : Bool) → (x && y) ≡ false → not x ≡ false → (y || false) ≡ true → ⊥
      clash x y c t r = ground arith

  taken-merged :
      (m : MonitorOp V) (a v : V) (p : Posted V)
      → TakesIn u act m a v p
      → merged act a (after_post m p).0.queue ≡ act (merged act a m.queue) v
  taken-merged m a v type_changed h = absurd h
  taken-merged m a v (posted r ev more) h = h

  both : {x y : Bool} → (x && y) ≡ true → (x ≡ true) × (y ≡ true)
  both {x} {y} h = (ground arith, ground arith)

  pub post-merged :
      (m : MonitorOp V) (v a : V) (force : Bool)
      → ((a b c : V) → act a (u.assign b c) ≡ act (act a b) c)
      → Valid m
      → Live m
      → merged act a (run u m (post (some v) false force)).0.queue
        ≡ with_post m v (merged act a m.queue)
  unfolding run
  post-merged m v a force law h l =
      elim (Bool-cases (type_fits u m (some v) && is_real u m (some v))) [
        | inl c ↦ rw c (
            taken-merged m a v (do_post u m (some v) false force)
              (do_post-TakesIn u act law m a v force h l.1 (both c).0 (both c).1))
        | inr c ↦ rw c (ignored-merged m v a force c)
      ]

  -- What the messages in a list of what is on its way come to.
  abbrev pub update_of : Body V → Option V
  update_of (update v) = some v
  update_of _ = none

  abbrev pub into : V → Option V → V
  into a none = a
  into a (some v) = act a v

  abbrev pub arriving : V → List (ℕ × Body V) → V
  arriving a [] = a
  arriving a ((k, b) ∷ w) = arriving (into a (update_of b)) w

  pub arriving-append :
      (x y : List (ℕ × Body V)) (a : V) → arriving a (x ++ y) ≡ arriving (arriving a x) y
  arriving-append [] y a = refl
  arriving-append ((k, b) ∷ x) y a = arriving-append x y (into a (update_of b))

  -- What the worker does: the messages that leave and the queue that stays come to the old queue.
  abbrev pub Passes : MonitorOp V → MonitorOp V × List (Event V) → Type 0
  Passes m r =
      Live r.0
      × Updating (replies r.1)
      × ((a : V) → merged act (arriving a (replies r.1)) r.0.queue ≡ merged act a m.queue)
      × (r.0.pipeline ≡ m.pipeline)
      × (m.pipeline ≡ true → r.0.window + length (replies r.1) ≡ m.window)

  ready-Passes :
      (m : MonitorOp V) (q : List (Option V))
      → m.queue ≡ q
      → Valid m
      → Live m
      → Passes m (do_reply ready m)
  unfolding reply_executing
  ready-Passes m [] e h l =
      rw (ready-executing m l.0)
        (rw (ap is_empty e) ((l.0, l.1), tt, λ a. refl, refl, λ _. omega arith))
  ready-Passes m (none ∷ q) e h l =
      absurd (true≢false (sym (subst (Ended m.finished) e h.6).0 ∙ l.1))
  ready-Passes m (some v ∷ q) e h l = elim (Bool-cases (m.pipeline && not (nonzero m.window))) [
    | inl c ↦
        rw (do_reply-holds m l.0 (shut c).0 (shut c).1 l.1)
          ((l.0, l.1), tt, λ a. refl, refl, λ _. omega arith)
    | inr c ↦
        (let s = do_reply-sends m v q l.0 e (opened c) in
          let r = do_reply ready m in
          (
            (s.2, s.5 ∙ l.1),
            subst Updating (sym s.0) ((refl, v, refl), tt),
            λ a.
                ap (λ x. merged act (arriving a x) r.0.queue) s.0
                ∙ ap (merged act (act a v)) s.1
                ∙ sym (ap (merged act a) e),
            s.3,
            λ p. one_less p (opened c) s.4 s.0,
          ))
  ]
    where
      shut : (m.pipeline && not (nonzero m.window)) ≡ true → (m.pipeline ≡ true) × (m.window ≡ 0)
      shut c = (ground arith, ground arith)

      opened : (m.pipeline && not (nonzero m.window)) ≡ false → Open m
      opened c p = ground arith

      one_less :
          {w : ℕ} {o : List (ℕ × Body V)}
          → m.pipeline ≡ true
          → Open m
          → w ≡ (if m.pipeline then m.window - 1 else m.window)
          → o ≡ (0, update v) ∷ []
          → w + length o ≡ m.window
      one_less p op e o =
          omega (arith, op p, e ∙ ap (λ b. if b then m.window - 1 else m.window) p, ap length o)

  pub wake-Passes : (m : MonitorOp V) (k : Link) → Valid m → Live m → Passes m (run u m (wake k))
  unfolding run do_reply
  wake-Passes m gone h l = (l, tt, λ a. refl, refl, λ _. omega arith)
  wake-Passes m full h l =
      if-both (Passes m) (is_dead m.state) (λ _. (l, tt, λ a. refl, refl, λ _. omega arith))
        (λ _. (l, tt, λ a. refl, refl, λ _. omega arith))
  wake-Passes m ready h l = ready-Passes m m.queue refl h l
