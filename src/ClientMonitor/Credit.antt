-- ===== src/ClientMonitor/Credit.antt =====
-- src/clientmon.cpp: the flow control window of a pipelined subscription.
use pvxs.Prelude.{
  ℕ, ◌+◌, ◌-◌, ◌<◌, ◌^◌, ◌≡◌, refl, sym, ◌∙◌, ap, subst, Bool, true, false, true≢false, ◌&&◌, ◌||◌,
  not, Option, some, List, [], ◌∷◌, ◌++◌, length, length-append, leb, ◌==◌, if◌then◌else◌, if-both,
  arith,
}
use pvxs.ClientMonitor.State.{
  SubState, is_active, is_done, Entry, value, connected, Subscription, Action, send_ack,
  schedule_ack, has_entry, is_event, tick_ack, pop_entry, pop_from, count_ack,
}
use pvxs.ClientMonitor.Receive.{
  Message, handle_message, store, expects, push_entry, add_entry, close_window, squash_or,
}
use pvxs.ClientMonitor.Session.{Call, tick, pop, receive, run, run_all, or_dropped}

-- What is acknowledged in all.
abbrev pub acked : List Action → ℕ
acked [] = 0
acked (send_ack n ∷ a) = n + acked a
acked (_ ∷ a) = acked a

acked-schedule : (b : Bool) → acked ((if b then schedule_ack ∷ [] else []) ++ (send_ack 1 ∷ [])) ≡ 1
acked-schedule true = refl
acked-schedule false = refl

pub awaits : (s : SubState) → is_active s ≡ true → expects s false ≡ true
awaits s h = ground arith

pub undone : (s : SubState) → is_active s ≡ true → (is_done s || false) ≡ false
undone s h = ground arith

module _ {V : Type 0} where
  abbrev pub Values : List (Entry V) → Type 0
  Values [] = Unit
  Values (e ∷ q) = (is_event e ≡ false) × Values q

  -- The updates that the server may send, those to acknowledge and those queued are the queue's size.
  abbrev pub Credit : Subscription V → Type 0
  Credit m =
      (m.pipeline ≡ true)
      × (is_active m.state ≡ true)
      × Values m.queue
      × (m.window + m.unack + length m.queue ≡ m.queue_size)
      × (m.queue_size < 2 ^ 32)

  -- An update, which is not the last message.
  abbrev pub update_message : V → Bool → Message V
  update_message v squash = record {
    good = true;
    init = false;
    final = false;
    success = true;
    payload = some v;
    serv_squash = squash;
    init_throws = false;
  }

  push-Values : (q : List (Entry V)) (v : V) → Values q → Values (q ++ (value v ∷ []))
  push-Values [] v h = (refl, tt)
  push-Values (e ∷ q) v h = (h.0, push-Values q v h.1)

  count_ack-Credit :
      (m : Subscription V) (x : Entry V) (q : List (Entry V))
      → m.queue ≡ x ∷ q
      → Credit m
      → Credit (count_ack (record m { queue = q })).0
  count_ack-Credit m x q e h =
      if-both (λ (r : Subscription V × List Action). Credit r.0) m.pipeline
        (λ _. (h.0, h.1, (subst Values e h.2).1, omega (arith, h.3, ap length e, h.4), h.4))
        (λ c. absurd (true≢false (sym h.0 ∙ c)))

  pub pop_from-Credit :
      (q : List (Entry V)) (m : Subscription V)
      → m.queue ≡ q
      → Credit m
      → Credit (pop_from q m true).0
  pop_from-Credit [] m e h = h
  pop_from-Credit (x ∷ q) m e h = count_ack-Credit m x q e h

  pub tick_ack-Credit : (m : Subscription V) → Credit m → Credit (tick_ack m).0
  unfolding tick_ack
  tick_ack-Credit m h =
      if-both (λ (r : Subscription V × List Action). Credit r.0)
        (is_active m.state && m.pipeline && not (m.unack == 0))
        (λ _. (h.0, h.1, h.2, omega (arith, h.3, h.4), h.4)) (λ _. h)

module _ {V : Type 0} (assign : V → V → V) where
  add_entry-pipelined :
      (m : Subscription V) (v : V)
      → m.pipeline ≡ true
      → add_entry assign m (some (value v)) ≡ push_entry m (value v)
  unfolding add_entry
  add_entry-pipelined m v p =
      if-both (λ (o : Option (List (Entry V))). squash_or m v o ≡ push_entry m (value v))
        (leb m.queue_size (length m.queue) && not m.pipeline)
        (λ c. absurd (never (leb m.queue_size (length m.queue)) m.pipeline p c)) (λ _. refl)
    where
      never : (a p : Bool) → p ≡ true → (a && not p) ≡ true → ⊥
      never a p h c = ground arith

  store-Credit :
      (m : Subscription V) (v : V) (squash : Bool)
      → 0 < m.window
      → Credit m
      → Credit (store assign m (update_message v squash) (some (value v))).0
  unfolding store
  store-Credit m v squash w h =
      let m0 = close_window m in
      let cw = ap (λ b. if b then m.window - 1 else m.window) h.0 in
      let after : Credit (push_entry m0 (value v)) = (
        h.0,
        h.1,
        push-Values m.queue v h.2,
        omega (arith, h.3, w, cw, length-append m.queue (value v ∷ [])),
        h.4,
      ) in
      rw (add_entry-pipelined m0 v h.0) (
        if-both (λ (r : Subscription V × List Action). Credit r.0)
          (not (has_entry m.queue) && has_entry (m.queue ++ (value v ∷ []))) (λ _. after)
          (λ _. after))

  -- Each call is a pop, the timer, or an update for which there is a window.
  abbrev pub Ordinary : Subscription V → Call V → Type 0
  Ordinary m pop = Unit
  Ordinary m tick = Unit
  Ordinary m (receive msg) =
      (v : V) × (squash : Bool) × (msg ≡ update_message v squash) × (0 < m.window)
  Ordinary m _ = ⊥

  pub receive-Credit :
      (m : Subscription V) (v : V) (squash : Bool)
      → 0 < m.window
      → Credit m
      → Credit (or_dropped assign m (handle_message assign m (update_message v squash))).0
  unfolding handle_message
  receive-Credit m v squash w h =
      let s = store assign m (update_message v squash) (some (value v)) in
      let c = store-Credit m v squash w h in
      rw (awaits m.state h.1) (
        if-both (λ (r : Subscription V × List Action). Credit r.0) (is_done s.0.state || false)
          (λ d. absurd (true≢false (sym d ∙ undone s.0.state c.1))) (λ _. c))

  pub run-Credit :
      (m : Subscription V) (c : Call V) → Ordinary m c → Credit m → Credit (run assign m c).0
  unfolding run pop_entry
  run-Credit m pop o h = pop_from-Credit m.queue m refl h
  run-Credit m tick o h = tick_ack-Credit m h
  run-Credit m (receive msg) (v, squash, e, w) h =
      subst (λ x. Credit (or_dropped assign m (handle_message assign m x)).0) (sym e)
        (receive-Credit m v squash w h)
  run-Credit m _ o h = absurd o

  abbrev pub AllOrdinary : Subscription V → List (Call V) → Type 0
  AllOrdinary m [] = Unit
  AllOrdinary m (c ∷ cs) = Ordinary m c × AllOrdinary (run assign m c).0 cs

  -- While a pipelined subscription has only updates queued and the sum of window, updates to
  -- acknowledge and queue is queueSize, pops, ack timers, and updates for which there is a window
  -- keep it so.
  pub run_all-Credit :
      (m : Subscription V) (cs : List (Call V))
      → AllOrdinary m cs
      → Credit m
      → Credit (run_all assign m cs).0
  run_all-Credit m [] o h = h
  run_all-Credit m (c ∷ cs) o h = run_all-Credit (run assign m c).0 cs o.1 (run-Credit m c o.0 h)

  -- On a pipelined subscription with the server, with nothing to acknowledge, popping a Connected
  -- event and then running the ack timer acknowledges one update, though none was received.
  pub pop-over_acks :
      (m : Subscription V) (q : List (Entry V))
      → m.pipeline ≡ true
      → is_active m.state ≡ true
      → m.queue ≡ connected ∷ q
      → m.unack ≡ 0
      → acked (run_all assign m (pop ∷ tick ∷ [])).1 ≡ 1
  unfolding run pop_entry tick_ack
  pop-over_acks m q p a e u = rw (e, p, u, a) (acked-schedule _)
