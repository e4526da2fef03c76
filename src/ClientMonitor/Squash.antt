-- ===== src/ClientMonitor/Squash.antt =====
-- src/clientmon.cpp: the values of a queue that an update is pushed to, or taken into.
use pvxs.Prelude.{
  ◌≡◌, refl, sym, Bool, true, false, ◌&&◌, ◌||◌, not, Option, none, some, List, [], ◌∷◌, ◌++◌,
  length, leb, if◌then◌else◌, if-both,
}
use pvxs.ClientMonitor.State.{
  Entry, value, connected, disconnect, finished, remote_error, Subscription, Action, has_entry,
  is_active, is_done,
}
use pvxs.ClientMonitor.Receive.{
  handle_message, store, add_entry, assign_back, squash_or, put_back, close_window,
}
use pvxs.ClientMonitor.Session.{or_dropped}
use pvxs.ClientMonitor.Credit.{update_message, awaits}

module _ {V : Type 0} (assign : V → V → V) where
  -- The values of a queue, each taken into the one before, from a value on.
  abbrev pub merged : V → List (Entry V) → V
  merged a [] = a
  merged a (value v ∷ q) = merged (assign a v) q
  merged a (e ∷ q) = merged a q

  merged-push :
      (q : List (Entry V)) (a v : V) → merged a (q ++ (value v ∷ [])) ≡ assign (merged a q) v
  merged-push [] a v = refl
  merged-push (value w ∷ q) a v = merged-push q (assign a w) v
  merged-push (connected ∷ q) a v = merged-push q a v
  merged-push (disconnect ∷ q) a v = merged-push q a v
  merged-push (finished ∷ q) a v = merged-push q a v
  merged-push (remote_error ∷ q) a v = merged-push q a v

  -- The queue that an update was taken into, if any.
  abbrev Took : V → List (Entry V) → V → Option (List (Entry V)) → Type 0
  Took a q v none = Unit
  Took a q v (some r) = merged a r ≡ assign (merged a q) v

  put_back-Took :
      (e : Entry V) (q : List (Entry V)) (a v : V) (o : Option (List (Entry V)))
      → ((b : V) → Took b q v o)
      → Took a (e ∷ q) v (put_back e o)
  put_back-Took e q a v none h = tt
  put_back-Took (value w) q a v (some r) h = h (assign a w)
  put_back-Took connected q a v (some r) h = h a
  put_back-Took disconnect q a v (some r) h = h a
  put_back-Took finished q a v (some r) h = h a
  put_back-Took remote_error q a v (some r) h = h a

  assign_back-Took :
      ((a b c : V) → assign (assign a b) c ≡ assign a (assign b c))
      → (q : List (Entry V)) (a v : V) → Took a q v (assign_back assign q v)
  assign_back-Took assoc [] a v = tt
  assign_back-Took assoc (value b ∷ []) a v = sym (assoc a b v)
  assign_back-Took assoc (connected ∷ []) a v = tt
  assign_back-Took assoc (disconnect ∷ []) a v = tt
  assign_back-Took assoc (finished ∷ []) a v = tt
  assign_back-Took assoc (remote_error ∷ []) a v = tt
  assign_back-Took assoc (e ∷ f ∷ q) a v =
      put_back-Took e (f ∷ q) a v (assign_back assign (f ∷ q) v)
        (λ b. assign_back-Took assoc (f ∷ q) b v)

  squash_or-merged :
      (m : Subscription V) (a v : V) (o : Option (List (Entry V)))
      → Took a m.queue v o
      → merged a (squash_or m v o).queue ≡ assign (merged a m.queue) v
  squash_or-merged m a v none h = merged-push m.queue a v
  squash_or-merged m a v (some q) h = h

  add_entry-merged :
      (m : Subscription V) (a v : V)
      → ((a b c : V) → assign (assign a b) c ≡ assign a (assign b c))
      → merged a (add_entry assign m (some (value v))).queue ≡ assign (merged a m.queue) v
  unfolding add_entry
  add_entry-merged m a v assoc =
      let full = leb m.queue_size (length m.queue) && not m.pipeline in
      squash_or-merged m a v (if full then assign_back assign m.queue v else none)
        (if-both (Took a m.queue v) full (λ _. assign_back-Took assoc m.queue a v) (λ _. tt))

  -- Where taking values in is associative, an update message to a subscription in Idle or Running
  -- leaves a queue whose values, each taken into the one before, come to those of the old queue
  -- with the update taken in, whether it was squashed or pushed.
  pub handle_message-merged :
      (m : Subscription V) (a v : V) (squash : Bool)
      → ((a b c : V) → assign (assign a b) c ≡ assign a (assign b c))
      → is_active m.state ≡ true
      → merged a (or_dropped assign m (handle_message assign m (update_message v squash))).0.queue
        ≡ assign (merged a m.queue) v
  unfolding handle_message store
  handle_message-merged m a v squash assoc h =
      let m0 = close_window m in
      let m1 = add_entry assign m0 (some (value v)) in
      let P : Subscription V × List Action → Type 0 =
        λ r. merged a r.0.queue ≡ assign (merged a m.queue) v in
      let s = store assign m (update_message v squash) (some (value v)) in
      let c : P s =
        if-both P (not (has_entry m.queue) && has_entry m1.queue)
          (λ _. add_entry-merged m0 a v assoc) (λ _. add_entry-merged m0 a v assoc) in
      rw (awaits m.state h) (if-both P (is_done s.0.state || false) (λ _. c) (λ _. c))
