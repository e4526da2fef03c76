-- ===== src/ClientMonitor/Notify.antt =====
-- src/clientmon.cpp: the notification of the user, call by call.
use pvxs.Prelude.{
  ◌≡◌, refl, sym, ◌∙◌, ap, Bool, true, false, true≢false, ◌&&◌, ◌||◌, not, List, [], ◌∷◌, ◌++◌,
  if◌then◌else◌, if-both, Bool-cases, inl, inr, ◌==◌,
}
use pvxs.ClientMonitor.State.{
  creating, Entry, connected, disconnect, Subscription, Action, send_init, send_start, send_stop,
  send_ack, send_destroy, schedule_ack, cancel_ack, notify, has_entry, pause, push_event, create_op,
  disconnected, tick_ack, cancel, pop_entry, pop_from, Popped, is_idle, is_running, is_active,
  is_done, is_connecting, count_ack, is_event,
}

-- Whether the user's callback is called.
abbrev pub tells : List Action → Bool
tells [] = false
tells (notify ∷ a) = true
tells (_ ∷ a) = tells a

pub tells-append : (a b : List Action) → tells (a ++ b) ≡ (tells a || tells b)
tells-append [] b = refl
tells-append (send_init n ∷ a) b = tells-append a b
tells-append (send_start ∷ a) b = tells-append a b
tells-append (send_stop ∷ a) b = tells-append a b
tells-append (send_ack n ∷ a) b = tells-append a b
tells-append (send_destroy ∷ a) b = tells-append a b
tells-append (schedule_ack ∷ a) b = tells-append a b
tells-append (cancel_ack ∷ a) b = tells-append a b
tells-append (notify ∷ a) b = refl

pub tells-notify : (b : Bool) → b ≡ true → tells (if b then notify ∷ [] else []) ≡ true
tells-notify b h = rw h refl

pub or_right : (a : Bool) {b : Bool} → b ≡ true → (a || b) ≡ true
or_right true h = refl
or_right false h = h

pub both : (b : Bool) {A : Type 0} → b ≡ true → b ≡ false → A
both b t f = absurd (true≢false (sym t ∙ f))

module _ {V : Type 0} where
  -- Who is to be told has an empty queue.
  abbrev pub Caught : Subscription V → Type 0
  Caught m = m.need_notify ≡ true → m.queue ≡ []

  -- Afterwards too; and who was to be told before, and is not afterwards, has been.
  abbrev pub Told : Subscription V → Subscription V × List Action → Type 0
  Told m r = Caught r.0 × (m.need_notify ≡ true → r.0.need_notify ≡ false → tells r.1 ≡ true)

  pub pause-Told : (m : Subscription V) (p : Bool) → Caught m → Told m (pause m p)
  unfolding pause
  pause-Told m p h =
      if-both (Told m) ((is_idle m.state && not p) || (is_running m.state && p))
        (λ _. (h, both m.need_notify)) (λ _. (h, both m.need_notify))

  pub push_event-Told : (m : Subscription V) (e : Entry V) → Caught m → Told m (push_event m e)
  unfolding push_event
  push_event-Told m e h =
      if-both (Told m) (has_entry m.queue)
        (λ c. (λ t. absurd (true≢false (sym c ∙ ap has_entry (h t))), both m.need_notify))
        (λ _. (λ t. absurd (true≢false (sym t)), λ t f. tells-notify m.need_notify t))

  pub create_op-Told : (m : Subscription V) → Caught m → Told m (create_op m)
  unfolding create_op
  create_op-Told m h =
      if-both (Told m) (is_connecting m.state)
        (λ _.
          let m1 : Subscription V = record m { state = creating } in
          if-both (Told m) m.mask_conn {x = (m1, [])} {y = push_event m1 connected}
            (λ _. (h, both m.need_notify)) (λ _. push_event-Told m1 connected h))
        (λ _. (h, both m.need_notify))

  pub disconnected-Told : (m : Subscription V) → Caught m → Told m (disconnected m)
  unfolding disconnected
  disconnected-Told m h =
      if-both (Told m) (is_connecting m.state || is_done m.state) (λ _. (h, both m.need_notify))
        (λ _.
          if-both (Told m) m.mask_discon {x = (m, [])} {y = push_event m disconnect}
            (λ _. (h, both m.need_notify)) (λ _. push_event-Told m disconnect h))

  pub tick_ack-Told : (m : Subscription V) → Caught m → Told m (tick_ack m)
  unfolding tick_ack
  tick_ack-Told m h =
      if-both (Told m) (is_active m.state && m.pipeline && not (m.unack == 0))
        (λ _. (h, both m.need_notify)) (λ _. (h, both m.need_notify))

  pub cancel-Told : (m : Subscription V) → Caught m → Told m ((cancel m).0, (cancel m).1)
  unfolding cancel
  cancel-Told m h = (h, both m.need_notify)

  count_ack-need :
      (m : Subscription V)
      → ((count_ack m).0.need_notify ≡ m.need_notify) × ((count_ack m).0.queue ≡ m.queue)
  count_ack-need m =
      if-both
        (λ (r : Subscription V × List Action).
          (r.0.need_notify ≡ m.need_notify) × (r.0.queue ≡ m.queue))
        m.pipeline (λ _. (refl, refl)) (λ _. (refl, refl))

  pub pop_from-Told :
      (q : List (Entry V)) (m : Subscription V) (canthrow : Bool)
      → m.queue ≡ q
      → Caught m
      → Told m ((pop_from q m canthrow).0, (pop_from q m canthrow).1)
  pop_from-Told [] m canthrow e h = (λ t. e, λ t f. absurd (true≢false f))
  pop_from-Told (x ∷ q) m canthrow e h =
      if-both (λ (r : Subscription V × List Action × Popped V). Told m (r.0, r.1))
        (not canthrow && is_event x) (λ _. (h, both m.need_notify))
        (λ _.
          let c = count_ack-need (record m { queue = q }) in
          (
            λ t. absurd (true≢false (ap has_entry (sym e ∙ h (sym c.0 ∙ t)))),
            λ t f. both m.need_notify t (sym c.0 ∙ f),
          ))

  pub pop_entry-Told :
      (m : Subscription V) (canthrow : Bool)
      → Caught m
      → Told m ((pop_entry m canthrow).0, (pop_entry m canthrow).1)
  unfolding pop_entry
  pop_entry-Told m canthrow h = pop_from-Told m.queue m canthrow refl h

  -- One call after another.
  pub then-Told :
      (m : Subscription V) (r s : Subscription V × List Action)
      → Told m r
      → Told r.0 s
      → Told m (s.0, r.1 ++ s.1)
  then-Told m r s t u = (
    u.0,
    λ n f. elim (Bool-cases r.0.need_notify) [
      | inl c ↦ rw (tells-append r.1 s.1) (or_right (tells r.1) (u.1 c f))
      | inr c ↦ rw (tells-append r.1 s.1, t.1 n c) refl
    ],
  )
