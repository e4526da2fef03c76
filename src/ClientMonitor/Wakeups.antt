-- ===== src/ClientMonitor/Wakeups.antt =====
-- src/clientmon.cpp: the notification of the user, through any calls.
use pvxs.Prelude.{
  ℕ, zero, suc, ◌≡◌, refl, sym, ◌∙◌, ap, Bool, true, false, true≢false, ◌&&◌, ◌||◌, not, Option,
  none, some, List, [], ◌∷◌, ◌++◌, if◌then◌else◌, if-both, ◌==◌,
}
use pvxs.ClientMonitor.State.{
  idle, Entry, value, connected, disconnect, finished, remote_error, Subscription, Action, notify,
  has_entry, pop_entry, pop_loop, do_pop, take_more, Popped, Taken, is_done, nothing, kept, threw,
  popped,
}
use pvxs.ClientMonitor.Receive.{
  Message, squash_or, handle_message, store, turn, created, end_message, want_to_notify, expects,
  count_squash, add_entry, close_window, finish_entry, count_max,
}
use pvxs.ClientMonitor.Session.{
  Call, set_pause, create, drop_connection, tick, stop, pop, pop_many, receive, run, run_all,
  or_dropped,
}
use pvxs.ClientMonitor.Notify.{
  tells, tells-append, tells-notify, both, Caught, Told, pause-Told, create_op-Told,
  disconnected-Told, tick_ack-Told, cancel-Told, pop_entry-Told, then-Told, or_right,
}

module _ {V : Type 0} where
  take_more-Told :
      (m : Subscription V) (p : Subscription V × List Action × Popped V)
      (rest : Subscription V × List Action × Taken V)
      → Told m (p.0, p.1)
      → Told p.0 (rest.0, rest.1)
      → Told m ((take_more p rest).0, (take_more p rest).1)
  take_more-Told m (s, a, nothing) rest t u = t
  take_more-Told m (s, a, kept) rest t u = t
  take_more-Told m (s, a, threw e) rest t u = t
  take_more-Told m (s, a, popped v) (s', a', (e, vs)) t u = then-Told m (s, a) (s', a') t u

  pop_loop-Told :
      (n : ℕ) (m : Subscription V) (first : Bool)
      → Caught m
      → Told m ((pop_loop n m first).0, (pop_loop n m first).1)
  unfolding pop_loop
  pop_loop-Told zero m first h = (h, both m.need_notify)
  pop_loop-Told (suc n) m first h =
      let t = pop_entry-Told m first h in
      take_more-Told m (pop_entry m first) (pop_loop n (pop_entry m first).0 false) t
        (pop_loop-Told n (pop_entry m first).0 false t.0)

  no_entry : (q : List (Entry V)) → has_entry q ≡ false → q ≡ []
  no_entry [] h = refl
  no_entry (e ∷ q) h = absurd (true≢false h)

  end_message-Told :
      (m : Subscription V) (final : Bool)
      → Caught m
      → Caught (end_message m final).0 × ((end_message m final).0.need_notify ≡ m.need_notify)
  end_message-Told m final h =
      if-both (λ (r : Subscription V × List Action). Caught r.0 × (r.0.need_notify ≡ m.need_notify))
        (is_done m.state || final) (λ _. (h, refl)) (λ _. (h, refl))

  created-Told : (m : Subscription V) (msg : Message V) → Caught m → Told m (created m msg)
  created-Told m msg h =
      if-both (Told m) msg.init_throws (λ _. (h, both m.need_notify))
        (λ _.
          if-both (Told m) m.autostart (λ _. pause-Told (record m { state = idle }) false h)
            (λ _. (h, both m.need_notify)))

  turn-Told :
      (m : Subscription V) (msg : Message V) → Caught m → Told m ((turn m msg).0, (turn m msg).1)
  turn-Told m msg h =
      if-both Tells (not msg.success) (λ _. (h, both m.need_notify))
        (λ _. if-both Tells msg.init (λ _. created-Told m msg h) (λ _. (h, both m.need_notify)))
    where
      Tells : Subscription V × List Action × Option (Entry V) → Type 0
      Tells r = Told m (r.0, r.1)

  -- What ends a message tells nobody, and comes before the callback.
  ended-Told :
      (m : Subscription V) (s : Subscription V × List Action) (squash final : Bool)
      → Told m s
      → Told m (
        (end_message (count_squash s.0 squash) final).0,
        (end_message (count_squash s.0 squash) final).1 ++ s.1,
      )
  ended-Told m s squash final t =
      let e = end_message-Told (count_squash s.0 squash) final t.0 in
      let a = (end_message (count_squash s.0 squash) final).1 in
      (e.0, λ n f. rw (tells-append a s.1) (or_right (tells a) (t.1 n (sym e.1 ∙ f))))

module _ {V : Type 0} (assign : V → V → V) where
  squash_or-need :
      (m : Subscription V) (v : V) (q : Option (List (Entry V)))
      → (squash_or m v q).need_notify ≡ m.need_notify
  squash_or-need m v none = refl
  squash_or-need m v (some q) = refl

  add_entry-need :
      (m : Subscription V) (e : Option (Entry V))
      → (add_entry assign m e).need_notify ≡ m.need_notify
  unfolding add_entry
  add_entry-need m none = refl
  add_entry-need m (some (value v)) = squash_or-need m v _
  add_entry-need m (some connected) = refl
  add_entry-need m (some disconnect) = refl
  add_entry-need m (some finished) = refl
  add_entry-need m (some remote_error) = refl

  finish_entry-need :
      (m : Subscription V) (final : Bool) → (finish_entry m final).need_notify ≡ m.need_notify
  finish_entry-need m true = refl
  finish_entry-need m false = refl

  -- The entries that a message adds are told of, where the queue was empty.
  notified :
      (m m1 : Subscription V)
      → m1.need_notify ≡ m.need_notify
      → Caught m
      → Told m (want_to_notify m1 (not (has_entry m.queue) && has_entry m1.queue))
  notified m m1 e h =
      if-both (Told m) (not (has_entry m.queue) && has_entry m1.queue)
        {x = (record m1 { need_notify = false }, if m1.need_notify then notify ∷ [] else [])}
        {y = (m1, [])}
        (λ _. (λ t. absurd (true≢false (sym t)), λ t f. tells-notify m1.need_notify (e ∙ t)))
        (λ c. (
          λ t.
              no_entry m1.queue
                ((sym (ap (λ q. not (has_entry q) && has_entry m1.queue) (h (sym e ∙ t))) ∙ c)),
          λ t f. both m.need_notify t (sym e ∙ f),
        ))

  store-Told :
      (m : Subscription V) (msg : Message V) (e : Option (Entry V))
      → Caught m
      → Told m (store assign m msg e)
  unfolding store
  store-Told m msg e h =
      let m2 = add_entry assign (close_window m) e in
      let m1 = count_max (finish_entry m2 msg.final) in
      if-both (Told m) msg.init
        (λ _.
          if-both (Told m) msg.success (λ _. (h, both m.need_notify))
            (λ _. (λ t. absurd (true≢false (sym t)), λ t f. tells-notify m.need_notify t)))
        (λ _. notified m m1 (finish_entry-need m2 msg.final ∙ add_entry-need (close_window m) e) h)

  handle_message-Told :
      (m : Subscription V) (msg : Message V)
      → Caught m
      → Told m (or_dropped assign m (handle_message assign m msg))
  unfolding handle_message
  handle_message-Told m msg h =
      let t = turn m msg in
      let s = store assign t.0 msg t.2 in
      let e = end_message (count_squash s.0 msg.serv_squash) msg.final in
      let tt1 = turn-Told m msg h in
      if-both (λ o. Told m (or_dropped assign m o)) (msg.good && expects m.state msg.init)
        (λ _.
          then-Told m (t.0, t.1) (e.0, e.1 ++ s.1) tt1
            (ended-Told t.0 s msg.serv_squash msg.final (store-Told t.0 msg t.2 tt1.0)))
        (λ _. (h, both m.need_notify))

  pub run-Told : (m : Subscription V) (c : Call V) → Caught m → Told m (run assign m c)
  unfolding run do_pop
  run-Told m (set_pause p) h = pause-Told m p h
  run-Told m create h = create_op-Told m h
  run-Told m drop_connection h = disconnected-Told m h
  run-Told m tick h = tick_ack-Told m h
  run-Told m stop h = cancel-Told m h
  run-Told m pop h = pop_entry-Told m true h
  run-Told m (pop_many n) h = pop_loop-Told (if n == 0 then m.queue_size else n) m true h
  run-Told m (receive msg) h = handle_message-Told m msg h

  -- If a user who is to be notified has an empty queue, then through any calls that stays so, and
  -- a user who was to be notified before the calls and is not afterwards has been notified in
  -- between.
  pub run_all-Told :
      (m : Subscription V) (cs : List (Call V)) → Caught m → Told m (run_all assign m cs)
  run_all-Told m [] h = (h, both m.need_notify)
  run_all-Told m (c ∷ cs) h =
      let t = run-Told m c h in
      then-Told m (run assign m c) (run_all assign (run assign m c).0 cs) t
        (run_all-Told (run assign m c).0 cs t.0)
