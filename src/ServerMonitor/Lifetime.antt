-- ===== src/ServerMonitor/Lifetime.antt =====
-- src/servermon.cpp: the invariant from the INIT message on, through every call.
use pvxs.Prelude.{
  true≢false, sym, ℕ, ◌≤◌, ◌<◌, ◌^◌, ◌≡◌, refl, subst, Bool, true, false, ◌||◌, not, Option, none,
  some, List, [], ◌∷◌, ltb, length, if◌then◌else◌, if-both, Bool-cases, inl, inr, arith,
}
use pvxs.ServerMonitor.State.{MonitorOp, is_dead, is_executing, cancel_request}
use pvxs.ServerMonitor.Post.{
  Updates, Posted, do_post, enqueue, squash, set_watermarks, stats, type_fits, is_real, is_null,
}
use pvxs.ServerMonitor.Command.{
  Command, run_low_mark, run_high_mark, Options, AckAny, absent, count, percent, unreadable,
  no_text, Init, refused, threw, opened, open_pipeline, new_op, handle_init, clamp_ack,
  wants_pipeline, queue_limit, asked_ack, init_limit, default_limit,
}
use pvxs.ServerMonitor.Session.{
  Call, connect, error, set_callback, watermarks, post, read_stats, command, cancel, destroy, wake,
  low_mark, high_mark, Callback, start_callback, low_mark_callback, high_mark_callback, monitor,
  close_callback, is_creating, run, run_all, connect_op, error_op, set_callback_op, handle_monitor,
  or_else, after_post, after_command, after_watermarks,
}
use pvxs.ServerMonitor.Invariant.{
  Ended, Valid, Keeps, do_reply-Valid, handle_command-Valid, maybe_reply-Valid, cleanup-Valid,
  push-Ended, squash_back-Ended,
}

module _ {V : Type 0} where
  set_watermarks-Valid :
      (m : MonitorOp V) (low high : ℕ)
      → Valid m
      → Keeps (after_watermarks m (set_watermarks m low high))
  unfolding set_watermarks
  set_watermarks-Valid m low high h = elim (Bool-cases (ltb high low)) [
    | inl c ↦ rw c h
    | inr c ↦ rw c (h.0, h.1, h.2, ground arith, ground arith, h.5, h.6)
  ]

  set_callback_op-Valid :
      (k : Callback) (b : Bool) (m : MonitorOp V) → Valid m → Valid (set_callback_op k b m)
  unfolding set_callback_op
  set_callback_op-Valid start_callback b m h = h
  set_callback_op-Valid low_mark_callback b m h = h
  set_callback_op-Valid high_mark_callback b m h = h
  set_callback_op-Valid close_callback b m h = if-both Valid (is_dead m.state) (λ _. h) (λ _. h)

  handle_monitor-Valid :
      (m : MonitorOp V) (c : Command)
      → Valid m
      → Keeps (after_command m (handle_monitor true true (monitor m) c))
  unfolding handle_monitor
  handle_monitor-Valid m c h =
      if-both (λ o. Keeps (after_command m o)) (is_dead m.state) (λ _. h)
        (λ _.
          if-both (λ o. Keeps (after_command m o)) (is_creating m.state || false) (λ _. h)
            (λ _. handle_command-Valid m c h))

  cancel_request-Valid : (m : MonitorOp V) → Valid m → Valid (cancel_request m).0
  unfolding cancel_request
  cancel_request-Valid m h = if-both Keeps (is_executing m.state) (λ _. h) (λ _. h)

  stats-Valid : (m : MonitorOp V) (reset : Bool) → Valid m → Valid (stats m reset).1
  stats-Valid m reset h = if-both Valid reset (λ _. h) (λ _. h)

module _ {V : Type 0} (u : Updates V) where
  squash-Valid : (m : MonitorOp V) (val : Option V) → Valid m → Valid (squash u m val)
  squash-Valid m none h = h
  squash-Valid m (some v) h =
      (h.0, h.1, h.2, h.3, h.4, h.5, squash_back-Ended u.assign m.queue v m.finished h.6)

  enqueue-Valid :
      (m : MonitorOp V) (val : Option V) (maybe force : Bool)
      → m.finished ≡ false
      → Valid m
      → Valid (enqueue u m val maybe force)
  unfolding enqueue
  enqueue-Valid m val maybe force live h =
      if-both Valid (ltb (length m.queue) m.limit || force || is_null val)
        (λ _. (
          h.0,
          h.1,
          h.2,
          h.3,
          h.4,
          h.5,
          push-Ended m.queue val (subst (λ f. Ended f m.queue) live h.6),
        ))
        (λ _. if-both Valid (not maybe) (λ _. squash-Valid m val h) (λ _. h))

  do_post-Valid :
      (m : MonitorOp V) (val : Option V) (maybe force : Bool)
      → Valid m
      → Keeps (after_post m (do_post u m val maybe force))
  unfolding do_post
  do_post-Valid m val maybe force h =
      let P : Posted V → Type 0 = λ o. Keeps (after_post m o) in
      if-both P (not (type_fits u m val)) (λ _. h)
        (λ _.
          if-both P m.finished (λ _. h)
            (λ live.
              if-both P (is_real u m val || is_null val)
                (λ _.
                  maybe_reply-Valid (enqueue u (record m { first = false }) val maybe force)
                    (enqueue-Valid (record m { first = false }) val maybe force live h))
                (λ _. h)))

  pub run-Valid : (m : MonitorOp V) (c : Call V) → Valid m → Valid (run u m c).0
  unfolding run connect_op error_op run_low_mark run_high_mark
  run-Valid m (connect l) h =
      if-both (λ o. Keeps (or_else m o)) (is_creating m.state)
        (λ _. do_reply-Valid l (record m { has_type = true }) h) (λ _. h)
  run-Valid m (error l) h =
      if-both Keeps (is_creating m.state) (λ _. do_reply-Valid l (record m { has_msg = true }) h)
        (λ _. h)
  run-Valid m (set_callback k b) h = set_callback_op-Valid k b m h
  run-Valid m (watermarks low high) h = set_watermarks-Valid m low high h
  run-Valid m (post val maybe force) h = do_post-Valid m val maybe force h
  run-Valid m (read_stats reset) h = stats-Valid m reset h
  run-Valid m (command c) h = handle_monitor-Valid m c h
  run-Valid m cancel h = cancel_request-Valid m h
  run-Valid m destroy h = cleanup-Valid m h
  run-Valid m (wake l) h = do_reply-Valid l m h
  run-Valid m low_mark h = h
  run-Valid m high_mark h = h

  -- Every run of calls keeps the invariant: limit at least 2, 1 <= ackAt <= limit, low <= high <
  -- ackAt, a 64-bit window, and a null in the queue only as its last entry and after finish().
  pub run_all-Valid : (m : MonitorOp V) (cs : List (Call V)) → Valid m → Valid (run_all u m cs).0
  run_all-Valid m [] h = h
  run_all-Valid m (c ∷ cs) h = run_all-Valid (run u m c).0 cs (run-Valid m c h)

clamp_ack-range :
    (asked limit : ℕ) → 2 ≤ limit → (1 ≤ clamp_ack asked limit) × (clamp_ack asked limit ≤ limit)
unfolding clamp_ack
clamp_ack-range asked limit h = ground arith

-- A queueSize that was sent, and is no number from 2 on.
abbrev pub is_bad : Option (Option ℕ) → Bool
is_bad none = false
is_bad (some none) = true
is_bad (some (some q)) = ltb q 2

-- The length of the queue for what was asked.
abbrev pub limit_for : Option (Option ℕ) → ℕ
limit_for none = default_limit
limit_for (some none) = default_limit
limit_for (some (some q)) = if ltb q 2 then default_limit else q

abbrev pub has_text : AckAny → Bool
has_text no_text = false
has_text _ = true

limit_for-ge : (asked : Option (Option ℕ)) → 2 ≤ limit_for asked
limit_for-ge none = omega arith
limit_for-ge (some none) = omega arith
limit_for-ge (some (some q)) = ground arith

module _ (V : Type 0) where
  -- A new operation with what was asked for.
  abbrev pub Opens : Bool → Option (Option ℕ) → ℕ → Init V → Type 0
  Opens pipe asked nack refused = ⊥
  Opens pipe asked nack threw = ⊥
  Opens pipe asked nack (opened m) =
      Valid m × (m.window ≡ nack) × (m.pipeline ≡ pipe) × (m.limit ≡ limit_for asked)

  -- What an INIT message comes to, by whether it asks for a pipeline, whether its queueSize is bad
  -- and whether its ackAny has a form as a text.
  abbrev pub Verdict : Bool → Bool → Bool → Option (Option ℕ) → ℕ → Init V → Type 0
  Verdict true true text asked nack r = r ≡ refused
  Verdict true false false asked nack r = r ≡ threw
  Verdict true false true asked nack r = Opens true asked nack r
  Verdict false bad text asked nack r = Opens false asked nack r

  abbrev pub Agreed : Bool → Option (Option ℕ) → AckAny → ℕ → Init V → Type 0
  Agreed pipe asked ack nack r = Verdict pipe (is_bad asked) (has_text ack) asked nack r

  queue_limit-bad :
      (asked : Option (Option ℕ)) → is_bad asked ≡ true → queue_limit true asked ≡ none
  queue_limit-bad none b = absurd (true≢false (sym b))
  queue_limit-bad (some none) b = refl
  queue_limit-bad (some (some q)) b = ground arith

  queue_limit-good :
      (asked : Option (Option ℕ))
      → is_bad asked ≡ false
      → queue_limit true asked ≡ some (limit_for asked)
  queue_limit-good none b = refl
  queue_limit-good (some none) b = absurd (true≢false b)
  queue_limit-good (some (some q)) b = ground arith

  queue_limit-plain : (asked : Option (Option ℕ)) → queue_limit false asked ≡ some (limit_for asked)
  queue_limit-plain none = refl
  queue_limit-plain (some none) = refl
  queue_limit-plain (some (some q)) = ground arith

  open_pipeline-Verdict :
      (asked : Option (Option ℕ)) (ack : AckAny) (nack : ℕ)
      → nack < 2 ^ 64
      → Verdict true false
          (has_text ack)
          asked
          nack
          (open_pipeline (limit_for asked) nack (asked_ack ack))
  open_pipeline-Verdict asked ack nack h =
      elim ack
        as (λ x.
          Verdict true false (has_text x) asked nack
            (open_pipeline (limit_for asked) nack (asked_ack x))) [
              | absent ↦ opens 1
              | count n ↦ opens n
              | percent n ↦ opens n
              | unreadable ↦ opens 1
              | no_text ↦ refl
            ]
    where
      opens :
          (n : ℕ)
          → Opens true asked nack
              (opened (new_op true (limit_for asked) (clamp_ack n (limit_for asked)) nack))
      opens n =
          let l = limit_for-ge asked in
          let c = clamp_ack-range n (limit_for asked) l in
          ((l, c.0, c.1, omega arith, omega (arith, c.0), h, tt), refl, refl, refl)

  init_limit-Agreed :
      (pipe : Bool) (asked : Option (Option ℕ)) (ack : AckAny) (nack : ℕ)
      → nack < 2 ^ 64
      → Agreed pipe asked ack nack (init_limit pipe ack nack (queue_limit pipe asked))
  unfolding init_limit
  init_limit-Agreed true asked ack nack h = elim (Bool-cases (is_bad asked)) [
    | inl b ↦ rw (b, queue_limit-bad asked b) refl
    | inr b ↦ rw (b, queue_limit-good asked b) (open_pipeline-Verdict asked ack nack h)
  ]
  init_limit-Agreed false asked ack nack h =
      let l = limit_for-ge asked in
      rw (queue_limit-plain asked)
        ((l, omega arith, omega (arith, l), omega arith, omega arith, h, tt), refl, refl, refl)

  -- An INIT message with a nack below 2^64 that asks for a pipeline is refused where its queueSize
  -- is there and no number from 2 on, and else ends in an exception where its ackAny has no form
  -- as a text. Any other INIT message opens an operation that satisfies the invariant, has the
  -- window of the nack and the pipelining asked for, and a limit that is the queueSize if that is
  -- a number from 2 on and else 4.
  pub handle_init-Agreed :
      (o : Options) (nack : ℕ)
      → nack < 2 ^ 64
      → Agreed (wants_pipeline o.pipeline) o.queue_size o.ack_any nack (handle_init o nack)
  unfolding handle_init
  handle_init-Agreed o nack h =
      init_limit-Agreed (wants_pipeline o.pipeline) o.queue_size o.ack_any nack h
