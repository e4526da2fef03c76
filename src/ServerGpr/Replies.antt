-- ===== src/ServerGpr/Replies.antt =====
-- src/serverget.cpp: how many replies an operation sends.
use pvxs.Prelude.{
  ℕ, suc, ◌+◌, ◌≤◌, ◌≡◌, refl, Bool, true, false, ◌&&◌, ◌||◌, not, Option, none, some, List, [],
  ◌∷◌, ◌++◌, if◌then◌else◌, if-both, arith,
}
use pvxs.ServerMonitor.State.{OpState, creating, idle, executing, dead}
use pvxs.ServerGpr.State.{
  is_rpc, Value, ServerGpr, Body, Event, replied, get_called, put_called, rpc_called, cancel_called,
  close_dispatched, cleanup, do_reply, reply_last, reply_in, reply_executing, is_allowed,
  reply_idle, exec_body, failure,
}
use pvxs.ServerGpr.Session.{
  Job, connect_job, error_job, reply_job, Session, Exec, Call, connect, setup_error, drop_setup,
  set_on_put, set_on_get, set_on_close, set_on_cancel, exec, reply, error, work, cancel, destroy,
  handle_exec, execute, connect_setup, run_job, run_work, run, run_all, is_idle, is_creating,
  has_type, cancel_request, after_exec, or_same, reply_op, connect_type, connect_mask,
}

-- A reply is owed while the operation is created, and while it executes.
abbrev pub owed : OpState → ℕ
owed creating = 1
owed executing = 1
owed _ = 0

module _ {V K : Type 0} where
  abbrev pub sent : List (Event V K) → ℕ
  sent [] = 0
  sent (replied c b ∷ ev) = suc (sent ev)
  sent (e ∷ ev) = sent ev

  pub sent-append : (a b : List (Event V K)) → sent (a ++ b) ≡ sent a + sent b
  sent-append [] b = omega arith
  sent-append (replied c x ∷ a) b = omega (arith, sent-append a b)
  sent-append (get_called ∷ a) b = sent-append a b
  sent-append (put_called v ∷ a) b = sent-append a b
  sent-append (rpc_called v ∷ a) b = sent-append a b
  sent-append (cancel_called ∷ a) b = sent-append a b
  sent-append (close_dispatched ∷ a) b = sent-append a b

  -- An EXEC that is taken.
  abbrev pub begins : Session V K → Call V → ℕ
  begins s (exec e) =
      if is_idle s.op.state && (is_rpc e.cmd || has_type s.op.type) && e.good then 1 else 0
  begins s _ = 0

  abbrev Settles : ℕ → ServerGpr K × List (Event V K) → Type 0
  Settles n r = sent r.1 + owed r.0.state ≤ n

pub cleanup-sent :
    (V : Type 0) {K : Type 0} (m : ServerGpr K)
    → (sent (cleanup {V = V} m).1 ≡ 0) × ((cleanup {V = V} m).0.state ≡ dead)
unfolding cleanup
cleanup-sent V m = ground arith

module _ {V K : Type 0} where
  reply_last-Settles : (m : ServerGpr K) (b : Body V K) → Settles 1 (reply_last m b)
  unfolding reply_last
  reply_last-Settles m b =
      let (none_sent, over) = cleanup-sent V m in
      rw (sent-append (cleanup m).1 (replied m.subcmd b ∷ []), none_sent, over) (omega arith)

  reply_in-Settles :
      (st : OpState) (m : ServerGpr K) (v : Option (Value V)) (failed : Bool)
      → m.state ≡ st
      → Settles (owed st) (or_same m (reply_in st m v failed))
  unfolding reply_executing
  reply_in-Settles creating m v true st = reply_last-Settles m failure
  reply_in-Settles creating m v false st = omega arith
  reply_in-Settles executing m v true st = omega arith
  reply_in-Settles executing m v false st =
      if-both (λ o. Settles 1 (or_same m o)) (is_allowed m v)
        {x = some
          (if m.last_request then reply_last m (exec_body m v) else reply_idle m (exec_body m v))}
        {y = none}
        (λ _.
          if-both (Settles 1) m.last_request {x = reply_last m (exec_body m v)}
            {y = reply_idle m (exec_body m v)} (λ _. reply_last-Settles m (exec_body m v))
            (λ _. omega arith))
        (λ _. rw st (omega arith))
  reply_in-Settles idle m v failed st = rw st (omega arith)
  reply_in-Settles dead m v failed st = rw st (omega arith)

  reply_op-Settles :
      (linked : Bool) (m : ServerGpr K) (v : Option (Value V)) (failed : Bool)
      → Settles (owed m.state) (reply_op linked m v failed)
  unfolding do_reply
  reply_op-Settles true m v failed = reply_in-Settles m.state m v failed refl
  reply_op-Settles false m v failed = omega arith

module _ (V : Type 0) {K : Type 0} (request2mask : ℕ → Option K) where
  connect_type-Settles :
      (linked : Bool) (m : ServerGpr K) (t : Option ℕ)
      → Settles (owed m.state) (connect_type {V = V} request2mask linked m t)
  connect_type-Settles linked m none = reply_op-Settles linked m none false
  connect_type-Settles linked m (some t) =
      elim (request2mask t)
        as (λ o.
          Settles (owed m.state)
            (connect_mask {V = V} request2mask linked (record m { type = some t }) o)) [
              | none ↦ reply_op-Settles linked (record m { type = some t }) none true
              | some k ↦
                  reply_op-Settles linked (record m { type = some t; mask = some k }) none false
            ]

  run_job-Settles :
      (linked : Bool) (m : ServerGpr K) (j : Job V)
      → Settles (owed m.state) (run_job request2mask linked m j)
  unfolding run_job
  run_job-Settles linked m (connect_job t) =
      if-both (Settles (owed m.state)) (not linked || not (is_creating m.state) || has_type m.type)
        (λ _. omega arith) (λ _. connect_type-Settles linked m t)
  run_job-Settles linked m error_job =
      if-both (Settles (owed m.state)) (is_creating m.state)
        (λ _. reply_op-Settles linked m none true) (λ _. omega arith)
  run_job-Settles linked m (reply_job v failed) = reply_op-Settles linked m v failed

  abbrev After : Session V K → ℕ → Session V K × List (Event V K) → Type 0
  After s n r = sent r.1 + owed r.0.op.state ≤ owed s.op.state + n

  run_work-After :
      (linked : Bool) (s : Session V K) (js : List (Job V))
      → After s 0 (run_work request2mask linked s js)
  unfolding run_work
  run_work-After linked s [] = omega arith
  run_work-After linked s (j ∷ js) = omega (arith, run_job-Settles linked s.op j)

  execute-sent : (m : ServerGpr K) (e : Exec V) → sent (execute m e).0 ≡ 0
  unfolding execute
  execute-sent m e = ground arith

  exec-After :
      (s : Session V K) (e : Exec V)
      → After s (begins s (exec e)) (after_exec request2mask s (handle_exec s e))
  unfolding handle_exec
  exec-After s e = ground (arith, execute-sent s.op e)

  run-After : (s : Session V K) (c : Call V) → After s (begins s c) (run request2mask s c)
  unfolding run connect_setup cancel_request
  run-After s (connect t) = ground arith
  run-After s (setup_error b) = ground arith
  run-After s drop_setup = ground arith
  run-After s (set_on_put b) = omega arith
  run-After s (set_on_get b) = omega arith
  run-After s (set_on_close b) = ground arith
  run-After s (set_on_cancel b) = omega arith
  run-After s (exec e) = exec-After s e
  run-After s (reply v) = omega arith
  run-After s (error b) = ground arith
  run-After s (work linked) = run_work-After linked s s.jobs
  run-After s cancel = ground arith
  run-After s destroy =
      let (none_sent, over) = cleanup-sent V s.op in rw (none_sent, over) (omega arith)

  -- The EXEC messages that a run takes.
  abbrev pub begun : Session V K → List (Call V) → ℕ
  begun s [] = 0
  begun s (c ∷ cs) = begins s c + begun (run request2mask s c).0 cs

  -- In any sequence of calls and of work on the TCP worker, a GET, PUT or RPC sends no more
  -- replies than it owes: the replies, and one more while the operation is Creating or Executing,
  -- are at most one for a creation not yet answered or an execution in progress at the start and
  -- one for each EXEC message that was taken while Idle.
  pub run_all-sent :
      (s : Session V K) (cs : List (Call V))
      → sent (run_all request2mask s cs).1 + owed (run_all request2mask s cs).0.op.state
        ≤ owed s.op.state + begun s cs
  run_all-sent s [] = omega arith
  run_all-sent s (c ∷ cs) =
      let r = run request2mask s c in
      omega
        (arith, run-After s c, run_all-sent r.0 cs, sent-append r.1 (run_all request2mask r.0 cs).1)
