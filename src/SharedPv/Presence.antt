-- ===== src/SharedPv/Presence.antt =====
-- src/sharedpv.cpp: the callbacks for the first client and for the last one.
use pvxs.Prelude.{
  is_none, ℕ, suc, ◌+◌, ◌≡◌, refl, ◌∙◌, Bool, true, false, ◌||◌, not, Option, none, some, List, [],
  ◌∷◌, ◌++◌, map, length, ◌==◌, if◌then◌else◌, if-both, arith,
}
use pvxs.SharedPv.State.{
  Values, Subscriber, SharedPv, Event, op_connected, op_failed, sub_connected, sub_posted,
  exec_replied, exec_failed, put_called, rpc_called, first_connected, last_disconnected,
  channel_closed, got, is_empty, new_sub, for_each, connect_op, connect_ops, connect_sub,
  connect_new, post_sub, post_to, open_pv, post, close, attach, close_channel, close_op, close_sub,
  on_op, op_or_pending, on_subscribe, do_get, do_put, do_rpc,
}
use pvxs.SharedPv.Session.{
  Call, opens, closes, posts, attaches, channel_closes, op_arrives, op_closes, subscribes,
  sub_closes, gets, puts, calls, run, run_all, or_same,
}

module _ {V : Type 0} where
  -- The calls of onFirstConnect, and of onLastDisconnect.
  abbrev pub firsts : List (Event V) → ℕ
  firsts [] = 0
  firsts (first_connected ∷ ev) = suc (firsts ev)
  firsts (e ∷ ev) = firsts ev

  abbrev pub lasts : List (Event V) → ℕ
  lasts [] = 0
  lasts (last_disconnected ∷ ev) = suc (lasts ev)
  lasts (e ∷ ev) = lasts ev

  abbrev Same : List (Event V) → List (Event V) → Type 0
  Same x y = (firsts (x ++ y) ≡ firsts x + firsts y) × (lasts (x ++ y) ≡ lasts x + lasts y)

  count-append : (x y : List (Event V)) → Same x y
  count-append [] y = omega arith
  count-append (first_connected ∷ x) y = omega (arith, count-append x y)
  count-append (last_disconnected ∷ x) y = omega (arith, count-append x y)
  count-append (sub_connected m v ∷ x) y = count-append x y
  count-append (sub_posted m v ∷ x) y = count-append x y
  count-append (op_connected c v ∷ x) y = count-append x y
  count-append (op_failed c ∷ x) y = count-append x y
  count-append (exec_replied v ∷ x) y = count-append x y
  count-append (exec_failed ∷ x) y = count-append x y
  count-append (put_called v ∷ x) y = count-append x y
  count-append (rpc_called ∷ x) y = count-append x y
  count-append (channel_closed c ∷ x) y = count-append x y

  abbrev None : List (Event V) → Type 0
  None ev = (firsts ev ≡ 0) × (lasts ev ≡ 0)

  None-append : (x y : List (Event V)) → None x → None y → None (x ++ y)
  None-append x y h k = omega (arith, count-append x y)

  for_each-None :
      (f : Subscriber → Subscriber × List (Event V))
      → ((s : Subscriber) → None (f s).1)
      → (ss : List Subscriber) → None (for_each f ss).1
  for_each-None f h [] = omega arith
  for_each-None f h (s ∷ ss) = None-append (f s).1 (for_each f ss).1 (h s) (for_each-None f h ss)

  connect_ops-None : (b : ℕ → Bool) (cs : List ℕ) (v : V) → None (connect_ops b cs v)
  connect_ops-None b [] v = omega arith
  connect_ops-None b (c ∷ cs) v =
      None-append (connect_op b c v) (connect_ops b cs v) (ground arith) (connect_ops-None b cs v)

  connect_sub-None : (b : ℕ → Bool) (v : V) (s : Subscriber) → None (connect_sub b v s).1
  connect_sub-None b v s = ground arith

  post_sub-None : (v : V) (s : Subscriber) → None (post_sub v s).1
  post_sub-None v s = ground arith

  connect_new-None : (b : ℕ → Bool) (s : Subscriber) (c : Option V) → None (connect_new b s c).1
  connect_new-None b s none = omega arith
  connect_new-None b s (some v) = connect_sub-None b v s

closed-None : (V : Type 0) (chs : List ℕ) → None {V = V} (map channel_closed chs)
closed-None V [] = omega arith
closed-None V (c ∷ chs) = closed-None V chs

abbrev pub occupied : List ℕ → ℕ
occupied chs = if is_empty chs then 0 else 1

is_empty-push : (chs : List ℕ) (ch : ℕ) → is_empty (chs ++ (ch ∷ [])) ≡ false
is_empty-push [] ch = refl
is_empty-push (c ∷ chs) ch = refl

module _ {V : Type 0} (vs : Values V) (op_connects sub_connects : ℕ → Bool) where
  -- close() is not called, and no channel closes while there is none.
  abbrev pub Orderly : SharedPv V → List (Call V) → Type 0
  Orderly p [] = Unit
  Orderly p (closes ∷ cs) = ⊥
  Orderly p (channel_closes ch ∷ cs) =
      (is_empty p.channels ≡ false) × Orderly (close_channel p ch).0 cs
  Orderly p (c ∷ cs) = Orderly (run vs op_connects sub_connects p c).0 cs

  abbrev Balanced : SharedPv V → SharedPv V × List (Event V) → Type 0
  Balanced p r =
      (firsts r.1 + occupied p.channels ≡ lasts r.1 + occupied r.0.channels)
      × (r.0.on_first_connect ≡ p.on_first_connect)
      × (r.0.on_last_disconnect ≡ p.on_last_disconnect)

  None-Balanced :
      (p q : SharedPv V) (ev : List (Event V))
      → q.channels ≡ p.channels
      → q.on_first_connect ≡ p.on_first_connect
      → q.on_last_disconnect ≡ p.on_last_disconnect
      → None ev
      → Balanced p (q, ev)
  None-Balanced p q ev e f l n = (rw e (omega arith), f, l)

  open-Balanced :
      (p : SharedPv V) (v : V)
      → Balanced p (or_same vs op_connects sub_connects p (open_pv vs op_connects sub_connects p v))
  unfolding open_pv
  open-Balanced p v =
      let r = for_each (connect_sub sub_connects v) p.msubscribers in
      let opened = record p { current = some v; pending = []; msubscribers = r.0 } in
      if-both (λ o. Balanced p (or_same vs op_connects sub_connects p o))
        (not (vs.is_struct v) || not (is_none p.current)) {x = none}
        {y = some (opened, r.1 ++ connect_ops op_connects p.pending v)}
        (λ _. None-Balanced p p [] refl refl refl (omega arith))
        (λ _. None-Balanced p opened (r.1 ++ connect_ops op_connects p.pending v) refl refl refl (
          None-append r.1 (connect_ops op_connects p.pending v)
            (for_each-None (connect_sub sub_connects v) (connect_sub-None sub_connects v)
              p.msubscribers)
            (connect_ops-None op_connects p.pending v)))

  post-Balanced :
      (p : SharedPv V) (c : Option V) (v : V)
      → Balanced p (or_same vs op_connects sub_connects p (post_to vs p c v))
  post-Balanced p none v = None-Balanced p p [] refl refl refl (omega arith)
  post-Balanced p (some c) v =
      let told = (for_each (post_sub v) p.msubscribers).1 in
      let posted = record p { current = some (vs.assign c v) } in
      if-both (λ o. Balanced p (or_same vs op_connects sub_connects p o)) (vs.desc c == vs.desc v)
        {x = some (posted, told)} {y = none}
        (λ _.
          None-Balanced p posted told refl refl refl
            (for_each-None (post_sub v) (post_sub-None v) p.msubscribers))
        (λ _. None-Balanced p p [] refl refl refl (omega arith))

  op-Balanced :
      (p : SharedPv V) (n : ℕ) (c : Option V) → Balanced p (op_or_pending op_connects p n c)
  op-Balanced p n none = (omega arith, refl, refl)
  op-Balanced p n (some v) =
      None-Balanced p p (connect_op op_connects n v) refl refl refl (ground arith)

  get-Balanced : (p : SharedPv V) (c : Option V) → Balanced p (p, got c)
  get-Balanced p none = None-Balanced p p (got none) refl refl refl (omega arith)
  get-Balanced p (some v) = None-Balanced p p (got (some v)) refl refl refl (omega arith)

  run-Balanced :
      (p : SharedPv V) (c : Call V) (cs : List (Call V))
      → p.on_first_connect ≡ true
      → p.on_last_disconnect ≡ true
      → Orderly p (c ∷ cs)
      → Balanced p (run vs op_connects sub_connects p c)
        × Orderly (run vs op_connects sub_connects p c).0 cs
  unfolding run on_op on_subscribe attach close_channel close_op close_sub do_get do_put do_rpc post
  run-Balanced p (opens v) cs f l o = (open-Balanced p v, o)
  run-Balanced p closes cs f l o = absurd o
  run-Balanced p (posts v) cs f l o = (post-Balanced p p.current v, o)
  run-Balanced p (attaches ch) cs f l o =
      ((ground (arith, is_empty-push p.channels ch), refl, refl), o)
  run-Balanced p (channel_closes ch) cs f l o = ((ground arith, refl, refl), o.1)
  run-Balanced p (op_arrives n) cs f l o = (op-Balanced p n p.current, o)
  run-Balanced p (op_closes n) cs f l o = ((omega arith, refl, refl), o)
  run-Balanced p subscribes cs f l o =
      ((omega (arith, connect_new-None sub_connects (new_sub p.next_sub) p.current), refl, refl), o)
  run-Balanced p (sub_closes n) cs f l o = ((omega arith, refl, refl), o)
  run-Balanced p gets cs f l o = (get-Balanced p p.current, o)
  run-Balanced p (puts v) cs f l o = ((ground arith, refl, refl), o)
  run-Balanced p calls cs f l o = ((ground arith, refl, refl), o)

  -- In calls without close(), in which no channel closes while there is none, with both callbacks
  -- set, the calls of onFirstConnect, and one more if there was a client at the start, are as many
  -- as those of onLastDisconnect, and one more if there is a client at the end.
  pub run_all-balance :
      (p : SharedPv V) (cs : List (Call V))
      → p.on_first_connect ≡ true
      → p.on_last_disconnect ≡ true
      → Orderly p cs
      → let r = run_all vs op_connects sub_connects p cs in
        firsts r.1 + occupied p.channels ≡ lasts r.1 + occupied r.0.channels
  run_all-balance p [] f l o = omega arith
  run_all-balance p (c ∷ cs) f l o =
      let (b, o') = run-Balanced p c cs f l o in
      let r = run vs op_connects sub_connects p c in
      let rest = run_all vs op_connects sub_connects r.0 cs in
      omega (arith, b.0, count-append r.1 rest.1, run_all-balance r.0 cs (b.1 ∙ f) (b.2 ∙ l) o')

  close_none :
      (p : SharedPv V) (ch : ℕ)
      → p.channels ≡ []
      → p.on_last_disconnect ≡ true
      → (lasts (close_channel p ch).1 ≡ 1)
        × ((close_channel p ch).0.channels ≡ [])
        × ((close_channel p ch).0.on_last_disconnect ≡ true)
  unfolding close_channel
  close_none p ch e l = (rw (e, l) refl, rw e refl, l)

  closes_none :
      (p : SharedPv V) (chs : List ℕ)
      → p.channels ≡ []
      → p.on_last_disconnect ≡ true
      → lasts (run_all vs op_connects sub_connects p (map channel_closes chs)).1 ≡ length chs
  unfolding run
  closes_none p [] e l = refl
  closes_none p (ch ∷ chs) e l =
      let r = close_channel p ch in
      let rest = run_all vs op_connects sub_connects r.0 (map channel_closes chs) in
      let (one, empty, set) = close_none p ch e l in
      omega (arith, count-append r.1 rest.1, one, closes_none r.0 chs empty set)

  -- When a SharedPV with onLastDisconnect is closed, and its channels then call onClose,
  -- onLastDisconnect is called once for each channel that there was.
  pub run_all-close :
      (p : SharedPv V)
      → p.on_last_disconnect ≡ true
      → lasts (run_all vs op_connects sub_connects p (closes ∷ map channel_closes p.channels)).1
        ≡ length p.channels
  unfolding run close
  run_all-close p l =
      let r = close p in
      omega (
        arith,
        count-append r.1
            (run_all vs op_connects sub_connects r.0 (map channel_closes p.channels)).1,
        closed-None V p.channels,
        closes_none r.0 p.channels refl l,
      )
