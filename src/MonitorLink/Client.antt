-- ===== src/MonitorLink/Client.antt =====
-- src/clientmon.cpp: what the moves of a subscription bring about on the client's side.
use pvxs.Prelude.{
  ℕ, ◌-◌, ◌≡◌, refl, sym, ◌∙◌, ap, true≢false, length, leb, if◌then◌else◌, Bool, true, false, ◌&&◌,
  ◌||◌, not, Option, none, some, List, [], ◌∷◌, ◌++◌, ◌==◌, if-both,
}
use pvxs.ServerMonitor.Post.{Updates}
use pvxs.ClientMonitor.State.{
  Entry, value, connected, disconnect, finished, remote_error, Subscription, Action, schedule_ack,
  notify, is_active, is_done, has_entry, tick_ack, pop_entry, pop_from, count_ack, outcome,
}
use pvxs.ClientMonitor.Receive.{
  handle_message, store, add_entry, close_window, squash_or, assign_back,
}
use pvxs.ClientMonitor.Session.{or_dropped}
use pvxs.ClientMonitor.Credit.{update_message, awaits, undone}
use pvxs.ClientMonitor.Squash.{merged, handle_message-merged}
use pvxs.MonitorLink.State.{acks, Transport, view}

module _ {V : Type 0} (u : Updates V) (wire : Transport V) where
  -- The subscription stays active, and has what it had, from one value on, from another.
  abbrev pub Carries : Subscription V → V → V → Subscription V → Type 0
  Carries m a b r =
      (is_active r.state ≡ true) × (merged u.assign b r.queue ≡ merged u.assign a m.queue)

  pub tick-Carries :
      (m : Subscription V) (a : V) → is_active m.state ≡ true → Carries m a a (tick_ack m).0
  unfolding tick_ack
  tick-Carries m a h =
      if-both (λ (r : Subscription V × List Action). Carries m a a r.0)
        (is_active m.state && m.pipeline && not (m.unack == 0)) (λ _. (h, refl)) (λ _. (h, refl))

  abbrev Counted : Subscription V → Type 0
  Counted m =
      (is_active (count_ack m).0.state ≡ is_active m.state) × ((count_ack m).0.queue ≡ m.queue)

  count_ack-Counted : (m : Subscription V) → Counted m
  count_ack-Counted m =
      if-both
        (λ (r : Subscription V × List Action).
          (is_active r.0.state ≡ is_active m.state) × (r.0.queue ≡ m.queue))
        m.pipeline (λ _. (refl, refl)) (λ _. (refl, refl))

  outcome-merged :
      (x : Entry V) (q : List (Entry V)) (a : V)
      → merged u.assign (view u wire a (outcome x)) q ≡ merged u.assign a (x ∷ q)
  outcome-merged (value v) q a = refl
  outcome-merged connected q a = refl
  outcome-merged disconnect q a = refl
  outcome-merged finished q a = refl
  outcome-merged remote_error q a = refl

  pop_from-Carries :
      (q : List (Entry V)) (m : Subscription V) (a : V)
      → m.queue ≡ q
      → is_active m.state ≡ true
      → (let r = pop_from q m true in Carries m a (view u wire a r.2) r.0)
  pop_from-Carries [] m a e h = (h, refl)
  pop_from-Carries (x ∷ q) m a e h =
      let c = count_ack-Counted (record m { queue = q }) in
      (
        c.0 ∙ h,
        ap (merged u.assign (view u wire a (outcome x))) c.1
            ∙ outcome-merged x q a
            ∙ sym (ap (merged u.assign a) e),
      )

  pub pop-Carries :
      (m : Subscription V) (a : V)
      → is_active m.state ≡ true
      → (let r = pop_entry m true in Carries m a (view u wire a r.2) r.0)
  unfolding pop_entry
  pop-Carries m a h = pop_from-Carries m.queue m a refl h

  squash_or-active :
      (m : Subscription V) (v : V) (o : Option (List (Entry V)))
      → is_active m.state ≡ true
      → is_active (squash_or m v o).state ≡ true
  squash_or-active m v none h = h
  squash_or-active m v (some q) h = h

  add_entry-active :
      (m : Subscription V) (v : V)
      → is_active m.state ≡ true
      → is_active (add_entry u.assign m (some (value v))).state ≡ true
  unfolding add_entry
  add_entry-active m v h =
      squash_or-active m v
        (if leb m.queue_size (length m.queue) && not m.pipeline
          then assign_back u.assign m.queue v
          else none)
        h

  store-active :
      (m : Subscription V) (v : V)
      → is_active m.state ≡ true
      → is_active (store u.assign m (update_message v false) (some (value v))).0.state ≡ true
  unfolding store
  store-active m v h =
      let m1 = add_entry u.assign (close_window m) (some (value v)) in
      let k = add_entry-active (close_window m) v h in
      if-both (λ (r : Subscription V × List Action). is_active r.0.state ≡ true)
        (not (has_entry m.queue) && has_entry m1.queue) (λ _. k) (λ _. k)

  pub receive-active :
      (m : Subscription V) (v : V)
      → is_active m.state ≡ true
      → is_active
          (or_dropped u.assign m (handle_message u.assign m (update_message v false))).0.state
        ≡ true
  unfolding handle_message
  receive-active m v h =
      let s = store u.assign m (update_message v false) (some (value v)) in
      let c = store-active m v h in
      rw (awaits m.state h) (
        if-both (λ (r : Subscription V × List Action). is_active r.0.state ≡ true)
          (is_done s.0.state || false) (λ d. absurd (true≢false (sym d ∙ undone s.0.state c)))
          (λ _. c))

  pub receive-merged :
      (m : Subscription V) (a v : V)
      → ((a b c : V) → u.assign (u.assign a b) c ≡ u.assign a (u.assign b c))
      → is_active m.state ≡ true
      → merged u.assign a
          (or_dropped u.assign m (handle_message u.assign m (update_message v false))).0.queue
        ≡ u.assign (merged u.assign a m.queue) v
  receive-merged m a v assoc h = handle_message-merged u.assign m a v false assoc h

  -- The acks sent, and what is left of the window.
  abbrev Sends : List ℕ → ℕ → Subscription V × List Action → Type 0
  Sends n w r = (acks r.1 ≡ n) × (r.0.window ≡ w)

  pub pop-Sends : (m : Subscription V) → (let r = pop_entry m true in Sends [] m.window (r.0, r.1))
  unfolding pop_entry
  pop-Sends m = from_front m.queue m
    where
      due : (b : Bool) → acks (if b then schedule_ack ∷ [] else []) ≡ []
      due true = refl
      due false = refl

      from_front :
          (q : List (Entry V)) (m : Subscription V)
          → (let r = pop_from q m true in Sends [] m.window (r.0, r.1))
      from_front [] m = (refl, refl)
      from_front (x ∷ q) m =
          if-both (Sends [] m.window) m.pipeline (λ _. (due _, refl)) (λ _. (refl, refl))

  squash_or-window :
      (m : Subscription V) (v : V) (o : Option (List (Entry V)))
      → (squash_or m v o).window ≡ m.window
  squash_or-window m v none = refl
  squash_or-window m v (some q) = refl

  add_entry-window :
      (m : Subscription V) (v : V) → (add_entry u.assign m (some (value v))).window ≡ m.window
  unfolding add_entry
  add_entry-window m v = squash_or-window m v (
      if leb m.queue_size (length m.queue) && not m.pipeline
      then assign_back u.assign m.queue v
      else none)

  pub receive-Sends :
      (m : Subscription V) (v : V)
      → is_active m.state ≡ true
      → m.pipeline ≡ true
      → Sends []
          (m.window - 1)
          (or_dropped u.assign m (handle_message u.assign m (update_message v false)))
  unfolding handle_message store
  receive-Sends m v h p =
      let P : Subscription V × List Action → Type 0 = Sends [] (m.window - 1) in
      let m1 = add_entry u.assign (close_window m) (some (value v)) in
      let s = store u.assign m (update_message v false) (some (value v)) in
      let k =
        add_entry-window (close_window m) v ∙ ap (λ b. if b then m.window - 1 else m.window) p in
      let c : P s =
        if-both P (not (has_entry m.queue) && has_entry m1.queue) (λ _. (told _, k))
          (λ _. (refl, k)) in
      rw (awaits m.state h) (
        if-both (λ (r : Subscription V × List Action). P (r.0, r.1 ++ s.1))
          (is_done s.0.state || false)
          (λ d. absurd (true≢false (sym d ∙ undone s.0.state (store-active m v h)))) (λ _. c))
    where
      told : (b : Bool) → acks (if b then notify ∷ [] else []) ≡ []
      told true = refl
      told false = refl
