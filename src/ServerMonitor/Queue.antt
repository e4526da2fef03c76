-- ===== src/ServerMonitor/Queue.antt =====
-- src/servermon.cpp: what `ServerMonitorControl::doPost` does to the queue.
use pvxs.Prelude.{
  ℕ, suc, ◌≤◌, ◌<◌, ◌≡◌, refl, sym, subst, ◌∙◌, ap, Bool, true, false, ◌&&◌, ◌||◌, not, Option,
  none, some, List, [], ◌∷◌, ◌++◌, length, if-both, ltb, ltb→lt, true≢false, arith,
}
use pvxs.ServerMonitor.State.{MonitorOp, Event, maybe_reply, can_send}
use pvxs.ServerMonitor.Post.{
  Updates, Posted, type_changed, posted, do_post, enqueue, type_fits, is_real, is_null, squash_back,
}
use pvxs.ServerMonitor.Invariant.{Ended, Valid}

or_false : (b : Bool) → (b || false || false) ≡ true → b ≡ true
or_false b h = ground arith

module _ {V : Type 0} where
  -- The updates of a queue.
  abbrev pub updates : List (Option V) → ℕ
  updates [] = 0
  updates (none ∷ q) = updates q
  updates (some v ∷ q) = suc (updates q)

  updates-push : (q : List (Option V)) (v : Option V) → updates (q ++ (v ∷ [])) ≤ suc (updates q)
  updates-push [] none = omega arith
  updates-push [] (some v) = omega arith
  updates-push (none ∷ q) v = updates-push q v
  updates-push (some x ∷ q) v = omega (arith, updates-push q v)

  updates-null : (q : List (Option V)) → updates (q ++ (none ∷ [])) ≡ updates q
  updates-null [] = refl
  updates-null (none ∷ q) = updates-null q
  updates-null (some v ∷ q) = ap suc (updates-null q)

  updates-length : (q : List (Option V)) → updates q ≤ length q
  updates-length [] = omega arith
  updates-length (none ∷ q) = omega (arith, updates-length q)
  updates-length (some v ∷ q) = omega (arith, updates-length q)

  updates-squash_back :
      (f : V → V → V) (q : List (Option V)) (v : V) → updates (squash_back f q v) ≡ updates q
  unfolding squash_back
  updates-squash_back f [] v = refl
  updates-squash_back f (none ∷ []) v = refl
  updates-squash_back f (some b ∷ []) v = refl
  updates-squash_back f (none ∷ c ∷ q) v = updates-squash_back f (c ∷ q) v
  updates-squash_back f (some b ∷ c ∷ q) v = ap suc (updates-squash_back f (c ∷ q) v)

  maybe_reply-queue :
      (m : MonitorOp V) → ((maybe_reply m).0.queue ≡ m.queue) × ((maybe_reply m).0.limit ≡ m.limit)
  unfolding maybe_reply
  maybe_reply-queue m =
      if-both (λ (r : MonitorOp V × List (Event V)). (r.0.queue ≡ m.queue) × (r.0.limit ≡ m.limit))
        (not m.scheduled && can_send m) (λ _. (refl, refl)) (λ _. (refl, refl))

  -- The values of a queue, each taken into the one before, from a value on.
  abbrev pub merged : (V → V → V) → V → List (Option V) → V
  merged f a [] = a
  merged f a (none ∷ q) = merged f a q
  merged f a (some v ∷ q) = merged f (f a v) q

  -- A queue of updates: no null, and one at least.
  abbrev pub Filled : List (Option V) → Type 0
  Filled [] = ⊥
  Filled (none ∷ q) = ⊥
  Filled (some v ∷ []) = Unit
  Filled (some v ∷ w ∷ q) = Filled (w ∷ q)

  -- Whatever is done with a value of the queue, where a value that took in another is worth both.
  squash_back-merged :
      (f act : V → V → V)
      → ((a b c : V) → act a (f b c) ≡ act (act a b) c)
      → (q : List (Option V)) (a v : V) → Filled q
      → merged act a (squash_back f q v) ≡ merged act a (q ++ (some v ∷ []))
  unfolding squash_back
  squash_back-merged f act law [] a v h = absurd h
  squash_back-merged f act law (none ∷ q) a v h = absurd h
  squash_back-merged f act law (some b ∷ []) a v h = law a b v
  squash_back-merged f act law (some b ∷ w ∷ q) a v h =
      squash_back-merged f act law (w ∷ q) (act a b) v h

  merged-push :
      (f : V → V → V) (q : List (Option V)) (a v : V)
      → merged f a (q ++ (some v ∷ [])) ≡ f (merged f a q) v
  merged-push f [] a v = refl
  merged-push f (none ∷ q) a v = merged-push f q a v
  merged-push f (some b ∷ q) a v = merged-push f q (f a b) v

some_room : (n l : ℕ) (force : Bool) → (ltb n l || force || false) ≡ false → 2 ≤ l → 0 < n
some_room n l force h two = ground arith

module _ {V : Type 0} (u : Updates V) where
  -- What a post leaves of the queue's bound, and what it says of it.
  abbrev pub Bounded : MonitorOp V → Posted V → Type 0
  Bounded m type_changed = Unit
  Bounded m (posted r ev more) =
      (updates r.queue ≤ m.limit) × (r.limit ≡ m.limit) × (more ≡ true → length r.queue < m.limit)

  abbrev Held : MonitorOp V → MonitorOp V → Type 0
  Held m r = (updates r.queue ≤ m.limit) × (r.limit ≡ m.limit)

  enqueue-bound :
      (m : MonitorOp V) (val : Option V) (maybe : Bool)
      → updates m.queue ≤ m.limit
      → (updates (enqueue u m val maybe false).queue ≤ m.limit)
        × ((enqueue u m val maybe false).limit ≡ m.limit)
  unfolding enqueue
  enqueue-bound m none maybe h =
      if-both (Held m) (ltb (length m.queue) m.limit || false || true)
        (λ _. (rw (updates-null m.queue) h, refl))
        (λ _. if-both (Held m) (not maybe) (λ _. (h, refl)) (λ _. (h, refl)))
  enqueue-bound m (some v) maybe h =
      if-both (Held m) (ltb (length m.queue) m.limit || false || false)
        (λ c.
          let room = ltb→lt (length m.queue) m.limit (or_false _ c) in
          (omega (arith, updates-push m.queue (some v), updates-length m.queue, room), refl))
        (λ _.
          if-both (Held m) (not maybe) (λ _. (rw (updates-squash_back u.assign m.queue v) h, refl))
            (λ _. (h, refl)))

  -- An unforced post that raises no error, to a queue of at most limit updates leaves at most
  -- limit updates and the limit as it was, and its result is true only if the queue is then
  -- shorter than the limit.
  pub do_post-Bounded :
      (m : MonitorOp V) (val : Option V) (maybe : Bool)
      → updates m.queue ≤ m.limit
      → Bounded m (do_post u m val maybe false)
  unfolding do_post
  do_post-Bounded m val maybe h =
      let m1 = record m { first = false } in
      let e = enqueue-bound m1 val maybe h in
      if-both (Bounded m) (not (type_fits u m val)) (λ _. tt)
        (λ _.
          if-both (Bounded m) m.finished (λ _. (h, refl, λ c. absurd (true≢false (sym c))))
            (λ _.
              if-both (Bounded m) (is_real u m val || is_null val)
                (λ _.
                  let r = maybe_reply-queue (enqueue u m1 val maybe false) in
                  (rw (r.0) e.0, r.1 ∙ e.1, λ c. ltb→lt _ _ c))
                (λ _. (h, refl, λ c. ltb→lt _ _ c))))

  -- The queue, once the update is in, comes to what it came to before with the update taken into it.
  abbrev pub Takes : MonitorOp V → V → V → Posted V → Type 0
  Takes m a v type_changed = ⊥
  Takes m a v (posted r ev more) =
      merged u.assign a r.queue ≡ u.assign (merged u.assign a m.queue) v

  full-Filled : (q : List (Option V)) → Ended false q → 0 < length q → Filled q
  full-Filled [] h n = absurd (omega (arith, n))
  full-Filled (none ∷ q) h n = absurd (true≢false (sym h.0))
  full-Filled (some v ∷ []) h n = tt
  full-Filled (some v ∷ w ∷ q) h n = full-Filled (w ∷ q) h (omega arith)

  -- The same, whatever is done with a value of the queue.
  abbrev pub TakesIn : (V → V → V) → MonitorOp V → V → V → Posted V → Type 0
  TakesIn act m a v type_changed = ⊥
  TakesIn act m a v (posted r ev more) = merged act a r.queue ≡ act (merged act a m.queue) v

  module _ (act : V → V → V) (law : (a b c : V) → act a (u.assign b c) ≡ act (act a b) c) where
    enqueue-merged :
        (m : MonitorOp V) (a v : V) (force : Bool)
        → Valid m
        → m.finished ≡ false
        → merged act a (enqueue u m (some v) false force).queue ≡ act (merged act a m.queue) v
    unfolding enqueue
    enqueue-merged m a v force h live =
        if-both (λ (r : MonitorOp V). merged act a r.queue ≡ act (merged act a m.queue) v)
          (ltb (length m.queue) m.limit || force || false) (λ _. merged-push act m.queue a v)
          (λ c.
            squash_back-merged u.assign act law m.queue a v (
              full-Filled m.queue (subst (λ f. Ended f m.queue) live h.6)
                (some_room (length m.queue) m.limit force c h.0))
            ∙ merged-push act m.queue a v)

    pub do_post-TakesIn :
        (m : MonitorOp V) (a v : V) (force : Bool)
        → Valid m
        → m.finished ≡ false
        → type_fits u m (some v) ≡ true
        → is_real u m (some v) ≡ true
        → TakesIn act m a v (do_post u m (some v) false force)
    unfolding do_post
    do_post-TakesIn m a v force h live fits real =
        let m1 = record m { first = false } in
        let P : Posted V → Type 0 = TakesIn act m a v in
        if-both P (not (type_fits u m (some v))) (λ c. absurd (true≢false (sym c ∙ ap not fits)))
          (λ _.
            if-both P m.finished (λ c. absurd (true≢false (sym c ∙ live)))
              (λ _.
                if-both P (is_real u m (some v) || false)
                  (λ _.
                    ap (merged act a) (maybe_reply-queue (enqueue u m1 (some v) false force)).0
                    ∙ enqueue-merged m1 a v force h live)
                  (λ c. absurd (true≢false (sym (ap (λ b. b || false) real) ∙ c)))))

  TakesIn-assign :
      (m : MonitorOp V) (a v : V) (p : Posted V) → TakesIn u.assign m a v p → Takes m a v p
  TakesIn-assign m a v type_changed h = h
  TakesIn-assign m a v (posted r ev more) h = h

  -- Where taking values in is associative, a post that is neither maybe nor of a wrong type nor
  -- masked out, to an operation that keeps the invariant and is not finished, leaves a queue whose
  -- values, taken each into the one before, come to those of the old queue with the new value
  -- taken in, squashed or not.
  pub do_post-Takes :
      (m : MonitorOp V) (a v : V) (force : Bool)
      → ((a b c : V) → u.assign (u.assign a b) c ≡ u.assign a (u.assign b c))
      → Valid m
      → m.finished ≡ false
      → type_fits u m (some v) ≡ true
      → is_real u m (some v) ≡ true
      → Takes m a v (do_post u m (some v) false force)
  do_post-Takes m a v force assoc h live fits real =
      TakesIn-assign m a v (do_post u m (some v) false force)
        (do_post-TakesIn u.assign (λ a b c. sym (assoc a b c)) m a v force h live fits real)
