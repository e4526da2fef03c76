-- ===== src/ServerGpr/Answer.antt =====
-- src/serverget.cpp: ~ServerGPRConnect, and the answer to an INIT.
use pvxs.Prelude.{
  ℕ, zero, suc, ◌≤◌, ◌≡◌, refl, sym, subst, ap, Bool, true, false, Option, none, some, List, [],
  ◌∷◌, ◌++◌, length, length-append, arith, ◌⊎◌, inl, inr, Bool-cases,
}
use pvxs.ServerMonitor.State.{OpState, creating, idle, executing, dead}
use pvxs.ServerGpr.State.{
  Value, ServerGpr, Event, cleanup, do_reply, reply_last, reply_in, failure, replied,
}
use pvxs.ServerGpr.Session.{
  Job, connect_job, error_job, reply_job, Session, Call, drop_setup, work, run_job, run_work, run,
  run_all, is_creating, has_type, or_same, reply_op, connect_type, connect_mask,
}
use pvxs.ServerGpr.Replies.{sent, sent-append, cleanup-sent}

abbrev pub works : {V : Type 0} → ℕ → List (Call V)
works zero = []
works (suc n) = work true ∷ works n

-- No reply is owed: Idle or Dead.
abbrev pub Settled : OpState → Type 0
Settled idle = Unit
Settled dead = Unit
Settled creating = ⊥
Settled executing = ⊥

module _ {V K : Type 0} where
  abbrev Answered : ServerGpr K × List (Event V K) → Type 0
  Answered r = (sent r.1 ≡ 1) × Settled r.0.state

  abbrev Quiet : ServerGpr K × List (Event V K) → Type 0
  Quiet r = (sent r.1 ≡ 0) × Settled r.0.state

  reply_in-Answered :
      (m : ServerGpr K) (v : Option (Value V)) (failed : Bool)
      → Answered (or_same m (reply_in creating m v failed))
  unfolding reply_last
  reply_in-Answered m v true =
      let (none_sent, over) = cleanup-sent V m in
      (
        rw (sent-append (cleanup m).1 (replied m.subcmd failure ∷ []), none_sent) (omega arith),
        rw over tt,
      )
  reply_in-Answered m v false = (omega arith, tt)

  reply_op-Answered :
      (m : ServerGpr K) (v : Option (Value V)) (failed : Bool)
      → m.state ≡ creating
      → Answered (reply_op true m v failed)
  unfolding do_reply
  reply_op-Answered m v failed st =
      subst (λ x. Answered (or_same m (reply_in x m v failed))) (sym st)
        (reply_in-Answered m v failed)

  reply_in-Quiet :
      (st : OpState) (m : ServerGpr K) (v : Option (Value V)) (failed : Bool)
      → m.state ≡ st
      → Settled st
      → Quiet (or_same m (reply_in st m v failed))
  reply_in-Quiet idle m v failed e h = rw e (refl, tt)
  reply_in-Quiet dead m v failed e h = rw e (refl, tt)
  reply_in-Quiet creating m v failed e h = absurd h
  reply_in-Quiet executing m v failed e h = absurd h

  reply_op-Quiet :
      (m : ServerGpr K) (v : Option (Value V)) (failed : Bool)
      → Settled m.state
      → Quiet (reply_op true m v failed)
  unfolding do_reply
  reply_op-Quiet m v failed h = reply_in-Quiet m.state m v failed refl h

Settled-is_creating : (st : OpState) → Settled st → is_creating st ≡ false
Settled-is_creating idle h = refl
Settled-is_creating dead h = refl
Settled-is_creating creating h = absurd h
Settled-is_creating executing h = refl

abbrev pub HasError : {V : Type 0} → List (Job V) → Type 0
HasError [] = ⊥
HasError (error_job ∷ js) = Unit
HasError (j ∷ js) = HasError js

module _ (V : Type 0) {K : Type 0} (request2mask : ℕ → Option K) where
  run_job-Quiet :
      (m : ServerGpr K) (j : Job V) → Settled m.state → Quiet (run_job request2mask true m j)
  unfolding run_job
  run_job-Quiet m (connect_job t) h = rw (Settled-is_creating m.state h) (refl, h)
  run_job-Quiet m error_job h = rw (Settled-is_creating m.state h) (refl, h)
  run_job-Quiet m (reply_job v failed) h = reply_op-Quiet m v failed h

  abbrev Waits : ServerGpr K × List (Event V K) → Type 0
  Waits r = (sent r.1 ≡ 0) × (r.0.state ≡ creating)

  connect_type-Answered :
      (m : ServerGpr K) (t : Option ℕ)
      → m.state ≡ creating
      → Answered (connect_type {V = V} request2mask true m t)
  connect_type-Answered m none st = reply_op-Answered m none false st
  connect_type-Answered m (some t) st =
      elim (request2mask t)
        as (λ o. Answered (connect_mask {V = V} request2mask true (record m { type = some t }) o)) [
          | none ↦ reply_op-Answered (record m { type = some t }) none true st
          | some k ↦ reply_op-Answered (record m { type = some t; mask = some k }) none false st
        ]

  run_job-cases :
      (m : ServerGpr K) (j : Job V)
      → m.state ≡ creating
      → let r = run_job request2mask true m j in
        Answered r ⊎ (Waits r × ((js : List (Job V)) → HasError (j ∷ js) → HasError js))
  unfolding run_job
  run_job-cases m (connect_job t) st =
      let waits : is_creating m.state ≡ true = ap is_creating st in
      elim (Bool-cases (has_type m.type)) [
        | inl typed ↦ rw (waits, typed) (inr ((refl, st), λ js h. h))
        | inr untyped ↦ rw (waits, untyped) (inl (connect_type-Answered m t st))
      ]
  run_job-cases m error_job st =
      let waits : is_creating m.state ≡ true = ap is_creating st in
      rw waits (inl (reply_op-Answered m none true st))
  run_job-cases m (reply_job v failed) st = inl (reply_op-Answered m v failed st)

  abbrev session : ServerGpr K → List (Job V) → Bool → Bool → Session V K
  session m js held did = record { op = m; jobs = js; held = held; did_connect = did }

  drain-Quiet :
      (n : ℕ) (m : ServerGpr K) (js : List (Job V)) (held did : Bool)
      → Settled m.state
      → let r = run_all request2mask (session m js held did) (works n) in
        (sent r.1 ≡ 0) × Settled r.0.op.state
  unfolding run run_work
  drain-Quiet zero m js held did h = (refl, h)
  drain-Quiet (suc n) m [] held did h = drain-Quiet n m [] held did h
  drain-Quiet (suc n) m (j ∷ js) held did h =
      let r = run_job request2mask true m j in
      let (none_sent, settled) = run_job-Quiet m j h in
      let (none_more, end) = drain-Quiet n r.0 js held did settled in
      let rest = run_all request2mask (session r.0 js held did) (works n) in
      (rw (sent-append r.1 rest.1, none_sent, none_more) (omega arith), end)

  drain-answers :
      (js : List (Job V)) (n : ℕ) (m : ServerGpr K) (held did : Bool)
      → m.state ≡ creating
      → HasError js
      → length js ≤ n
      → let r = run_all request2mask (session m js held did) (works n) in
        (sent r.1 ≡ 1) × Settled r.0.op.state
  unfolding run run_work
  drain-answers [] n m held did st h le = absurd h
  drain-answers (j ∷ js) zero m held did st h le = absurd (omega arith)
  drain-answers (j ∷ js) (suc n) m held did st h le =
      let r = run_job request2mask true m j in
      let rest = run_all request2mask (session r.0 js held did) (works n) in
      elim (run_job-cases m j st) [
        | inl (one, settled) ↦
            let (none_more, end) = drain-Quiet n r.0 js held did settled in
            (rw (sent-append r.1 rest.1, one, none_more) (omega arith), end)
        | inr ((none_sent, still), other) ↦
            let (one, end) = drain-answers js n r.0 held did still (other js h) (omega arith) in
            (rw (sent-append r.1 rest.1, none_sent, one) (omega arith), end)
      ]

  HasError-last : (js : List (Job V)) → HasError (js ++ (error_job ∷ []))
  HasError-last [] = tt
  HasError-last (connect_job t ∷ js) = HasError-last js
  HasError-last (error_job ∷ js) = tt
  HasError-last (reply_job v failed ∷ js) = HasError-last js

  -- Where the PV lets go of the setup of an operation that is still Creating, then once the worker
  -- has done what waits, with the connection there, the INIT has been answered by exactly one
  -- message, and the operation is Idle or Dead.
  pub drop_setup-answers :
      (s : Session V K)
      → s.op.state ≡ creating
      → s.held ≡ true
      → let r = run_all request2mask s (drop_setup ∷ works (suc (length s.jobs))) in
        (sent r.1 ≡ 1) × Settled r.0.op.state
  unfolding run
  drop_setup-answers s st held =
      let js = s.jobs ++ (error_job ∷ []) in
      rw held (
        drain-answers js (suc (length s.jobs)) s.op false s.did_connect st (HasError-last s.jobs)
          (omega (arith, length-append s.jobs (error_job ∷ []))))
