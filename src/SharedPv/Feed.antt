-- ===== src/SharedPv/Feed.antt =====
-- src/sharedpv.cpp: every run of calls keeps each subscription at the value of the PV.
use pvxs.Prelude.{
  is_none, ℕ, ◌+◌, ◌≡◌, refl, sym, subst, ap, ◌∙◌, Bool, true, false, ◌&&◌, ◌||◌, not, Option, none,
  some, List, [], ◌∷◌, ◌++◌, map, ◌==◌, if-both, arith, All,
}
use mathlib.Core.Path.{fun_ext}
use pvxs.SharedPv.State.{
  Values, Subscriber, SharedPv, Event, channel_closed, got, is_empty, remove, new_sub, for_each,
  connect_op, connect_ops, connect_sub, connect_new, post_sub, post_to, open_pv, post, close,
  attach, close_channel, close_op, close_sub, on_op, op_or_pending, on_subscribe, do_get, do_put,
  do_rpc,
}
use pvxs.SharedPv.Session.{
  Call, opens, closes, posts, attaches, channel_closes, op_arrives, op_closes, subscribes,
  sub_closes, gets, puts, calls, new_pv, run, run_all, or_same,
}
use pvxs.SharedPv.Views.{
  seen, seen-append, Chain, Chain-remove_sub, Chain-push, All-remove_sub, All-push, All-above,
  for_each-Chain, for_each-All, Follows, NonePending, Inv, connect_sub-id, connect_sub-own,
  connect_sub-Follows, post_sub-own, post_sub-Follows,
}

module _ {V : Type 0} (vs : Values V) (op_connects sub_connects : ℕ → Bool) where
  -- Events that tell no subscription of anything.
  abbrev Quiet : List (Event V) → Type 0
  Quiet ev = (n : ℕ) (a : Option V) → seen vs n a ev ≡ a

  abbrev Keeps : (ℕ → Option V) → SharedPv V × List (Event V) → Type 0
  Keeps acc r = Inv sub_connects (λ n. seen vs n (acc n) r.1) r.0

  Quiet-Keeps :
      (acc : ℕ → Option V) (p : SharedPv V) (ev : List (Event V))
      → Quiet ev
      → Inv sub_connects acc p
      → Keeps acc (p, ev)
  Quiet-Keeps acc p ev q h = subst (λ f. Inv sub_connects f p) (sym (fun_ext (λ n. q n (acc n)))) h

  connect_ops-Quiet : (cs : List ℕ) (v : V) → Quiet (connect_ops op_connects cs v)
  connect_ops-Quiet [] v n a = refl
  connect_ops-Quiet (c ∷ cs) v n a =
      if-both (λ e. seen vs n a ((e ∷ []) ++ connect_ops op_connects cs v) ≡ a) (op_connects c)
        (λ _. connect_ops-Quiet cs v n a) (λ _. connect_ops-Quiet cs v n a)

  closed-Quiet : (chs : List ℕ) → Quiet (map channel_closed chs)
  closed-Quiet [] n a = refl
  closed-Quiet (c ∷ chs) n a = closed-Quiet chs n a

  ops_after-Keeps :
      (acc : ℕ → Option V) (p : SharedPv V) (ev : List (Event V)) (cs : List ℕ) (v : V)
      → Keeps acc (p, ev)
      → Keeps acc (p, ev ++ connect_ops op_connects cs v)
  ops_after-Keeps acc p ev cs v h =
      let tail = connect_ops op_connects cs v in
      subst (λ f. Inv sub_connects f p)
        (sym (
          fun_ext (λ n.
            seen-append vs n (acc n) ev tail ∙ connect_ops-Quiet cs v n (seen vs n (acc n) ev))))
        h

  closed_current : (b : Bool) (c : Option V) → b || not (is_none c) ≡ false → c ≡ none
  closed_current b none h = refl
  closed_current true (some v) h = cc
  closed_current false (some v) h = cc

  post_sub-same : (v : V) (ss : List Subscriber) → (for_each (post_sub v) ss).0 ≡ ss
  post_sub-same v [] = refl
  post_sub-same v (s ∷ ss) = ap (◌∷◌ s) (post_sub-same v ss)

  new_sub-Follows :
      (acc : ℕ → Option V) (c : Option V) (ss : List Subscriber) (next : ℕ)
      → Chain 0 ss next
      → All (λ s. Follows sub_connects c (acc s.id) s) ss
      → let r = connect_new sub_connects (new_sub next) c in
        Chain 0 (ss ++ (r.0 ∷ [])) (next + 1)
        × All (λ s. Follows sub_connects c (seen vs s.id (acc s.id) r.1) s) (ss ++ (r.0 ∷ []))
  new_sub-Follows acc none ss next ch h = (
    Chain-push 0 ss next (new_sub next) refl ch,
    All-push (λ s. Follows sub_connects none (acc s.id) s) ss (new_sub next) h (refl, refl),
  )
  new_sub-Follows acc (some v) ss next ch h =
      let r = connect_sub sub_connects v (new_sub next) in
      (
        Chain-push 0 ss next r.0 (connect_sub-id vs sub_connects v (new_sub next)) ch,
        All-push (λ s. Follows sub_connects (some v) (seen vs s.id (acc s.id) r.1) s) ss r.0
            (All-above (λ s. Follows sub_connects (some v) (acc s.id) s)
              (λ s. Follows sub_connects (some v) (seen vs s.id (acc s.id) r.1) s) 0 ss next ch
              (λ t _ l k.
                subst (λ x. Follows sub_connects (some v) x t)
                  (sym (
                    connect_sub-own vs sub_connects v t.id (acc t.id) (new_sub next)
                      (λ e. absurd (omega arith))))
                  k)
              h)
            (connect_sub-Follows vs sub_connects v (new_sub next) (acc next) (refl, refl)),
      )

  open-Keeps :
      (acc : ℕ → Option V) (p : SharedPv V) (v : V)
      → Inv sub_connects acc p
      → Keeps acc (or_same vs op_connects sub_connects p (open_pv vs op_connects sub_connects p v))
  unfolding open_pv
  open-Keeps acc p v h =
      let r = for_each (connect_sub sub_connects v) p.msubscribers in
      let opened = record p { current = some v; pending = []; msubscribers = r.0 } in
      if-both (λ o. Keeps acc (or_same vs op_connects sub_connects p o))
        (not (vs.is_struct v) || not (is_none p.current)) {x = none}
        {y = some (opened, r.1 ++ connect_ops op_connects p.pending v)} (λ _. h)
        (λ e. ops_after-Keeps acc opened r.1 p.pending v (
          for_each-Chain vs (connect_sub sub_connects v) (connect_sub-id vs sub_connects v)
              (connect_sub-own vs sub_connects v) 0 p.msubscribers p.next_sub h.0,
          for_each-All vs (connect_sub sub_connects v) (connect_sub-id vs sub_connects v)
              (connect_sub-own vs sub_connects v) (Follows sub_connects none)
              (Follows sub_connects (some v)) (λ s a k. connect_sub-Follows vs sub_connects v s a k)
              acc 0 p.msubscribers p.next_sub h.0
              (subst (λ o. All (λ s. Follows sub_connects o (acc s.id) s) p.msubscribers)
                (closed_current (not (vs.is_struct v)) p.current e) h.1),
          refl,
        ))

  post-Keeps :
      (acc : ℕ → Option V) (p : SharedPv V) (c : Option V) (v : V)
      → p.current ≡ c
      → Inv sub_connects acc p
      → Keeps acc (or_same vs op_connects sub_connects p (post_to vs p c v))
  post-Keeps acc p none v e h = h
  post-Keeps acc p (some c) v e h =
      if-both (λ o. Keeps acc (or_same vs op_connects sub_connects p o)) (vs.desc c == vs.desc v)
        {x = some
          (record p { current = some (vs.assign c v) }, (for_each (post_sub v) p.msubscribers).1)}
        {y = none}
        (λ _. (
          h.0,
          subst
              (λ l.
                All
                  (λ s.
                    Follows sub_connects (some (vs.assign c v))
                      (seen vs s.id (acc s.id) (for_each (post_sub v) p.msubscribers).1) s)
                  l)
              (post_sub-same v p.msubscribers)
              (for_each-All vs (post_sub v) (λ s. refl) (post_sub-own vs sub_connects v)
                (Follows sub_connects (some c)) (Follows sub_connects (some (vs.assign c v)))
                (λ s a k. post_sub-Follows vs sub_connects c v s a k) acc 0 p.msubscribers
                p.next_sub h.0
                (subst (λ o. All (λ s. Follows sub_connects o (acc s.id) s) p.msubscribers) e h.1)),
          subst (λ o. NonePending o p.pending) e h.2,
        ))
        (λ _. h)

  subscribe-Keeps :
      (acc : ℕ → Option V) (p : SharedPv V)
      → Inv sub_connects acc p
      → Keeps acc (on_subscribe sub_connects p)
  unfolding on_subscribe
  subscribe-Keeps acc p h =
      let (chain, all) = new_sub-Follows acc p.current p.msubscribers p.next_sub h.0 h.1 in
      (chain, all, h.2)

  op-Keeps :
      (acc : ℕ → Option V) (p : SharedPv V) (n : ℕ) (c : Option V)
      → p.current ≡ c
      → Inv sub_connects acc p
      → Keeps acc (op_or_pending op_connects p n c)
  op-Keeps acc p n none e h =
      (h.0, h.1, subst (λ c. NonePending c (p.pending ++ (n ∷ []))) (sym e) tt)
  op-Keeps acc p n (some v) e h =
      Quiet-Keeps acc p (connect_op op_connects n v)
        (λ m a. if-both (λ x. seen vs m a (x ∷ []) ≡ a) (op_connects n) (λ _. refl) (λ _. refl)) h

  pending-remove :
      (c : Option V) (n : ℕ) (ops : List ℕ) → NonePending c ops → NonePending c (remove n ops)
  pending-remove none n ops h = tt
  pending-remove (some v) n ops h = rw h refl

  run-Keeps :
      (acc : ℕ → Option V) (p : SharedPv V) (c : Call V)
      → Inv sub_connects acc p
      → Keeps acc (run vs op_connects sub_connects p c)
  unfolding run on_op attach close_channel close_op close_sub do_get do_put do_rpc close post
  run-Keeps acc p (opens v) h = open-Keeps acc p v h
  run-Keeps acc p closes h = (omega arith, tt, tt)
  run-Keeps acc p (posts v) h = post-Keeps acc p p.current v refl h
  run-Keeps acc p (attaches ch) h =
      if-both (λ ev. Keeps acc (record p { channels = p.channels ++ (ch ∷ []) }, ev))
        (is_empty p.channels && p.on_first_connect) (λ _. h) (λ _. h)
  run-Keeps acc p (channel_closes ch) h =
      if-both (λ ev. Keeps acc (record p { channels = remove ch p.channels }, ev))
        (is_empty (remove ch p.channels) && p.on_last_disconnect) (λ _. h) (λ _. h)
  run-Keeps acc p (op_arrives n) h = op-Keeps acc p n p.current refl h
  run-Keeps acc p (op_closes n) h = (h.0, h.1, pending-remove p.current n p.pending h.2)
  run-Keeps acc p subscribes h = subscribe-Keeps acc p h
  run-Keeps acc p (sub_closes n) h = (
    Chain-remove_sub n 0 p.msubscribers p.next_sub h.0,
    All-remove_sub (λ s. Follows sub_connects p.current (acc s.id) s) n p.msubscribers h.1,
    h.2,
  )
  run-Keeps acc p gets h = elim p.current as (λ o. Keeps acc (p, got o)) [ none ↦ h | some v ↦ h ]
  run-Keeps acc p (puts v) h = if-both (λ e. Keeps acc (p, e ∷ [])) p.on_put (λ _. h) (λ _. h)
  run-Keeps acc p calls h = if-both (λ e. Keeps acc (p, e ∷ [])) p.on_rpc (λ _. h) (λ _. h)

  run_all-Keeps :
      (acc : ℕ → Option V) (p : SharedPv V) (cs : List (Call V))
      → Inv sub_connects acc p
      → Keeps acc (run_all vs op_connects sub_connects p cs)
  run_all-Keeps acc p [] h = h
  run_all-Keeps acc p (c ∷ cs) h =
      let r = run vs op_connects sub_connects p c in
      let rest = run_all vs op_connects sub_connects r.0 cs in
      subst (λ f. Inv sub_connects f rest.0)
        (sym (fun_ext (λ n. seen-append vs n (acc n) r.1 rest.1)))
        (run_all-Keeps (λ n. seen vs n (acc n) r.1) r.0 cs (run-Keeps acc p c h))

  -- After any calls to a new SharedPV: while it is closed every subscription waits; while it is
  -- open no operation waits, a subscription has been connected just where its connect() returns,
  -- and the updates that it was sent since, each taken into the one before, come to the value of
  -- the PV.
  pub run_all-Follows :
      (on_first on_last on_put on_rpc : Bool) (cs : List (Call V))
      → let r = run_all vs op_connects sub_connects (new_pv on_first on_last on_put on_rpc) cs in
        All (λ s. Follows sub_connects r.0.current (seen vs s.id none r.1) s) r.0.msubscribers
        × NonePending r.0.current r.0.pending
  run_all-Follows on_first on_last on_put on_rpc cs =
      let k =
        run_all-Keeps (λ n. none) (new_pv on_first on_last on_put on_rpc) cs
          (omega arith, tt, tt) in
      (k.1, k.2)
