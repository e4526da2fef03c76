-- ===== src/ServerGpr/Types.antt =====
-- src/serverget.cpp: the type of an operation, and the types in its replies.
use pvxs.Prelude.{
  ℕ, ◌≡◌, ap, Bool, true, false, ◌||◌, not, Option, none, some, List, [], ◌∷◌, ◌++◌, if◌then◌else◌,
  if-both, arith, ==_iff,
}
use pvxs.ServerMonitor.State.{OpState, creating, idle, executing, dead}
use pvxs.ServerGpr.State.{
  Value, ServerGpr, Body, failure, described, masked, whole, nothing, Event, replied, get_called,
  put_called, rpc_called, cancel_called, close_dispatched, cleanup, do_reply, reply_last,
  reply_idle, reply_in, reply_executing, is_allowed, exec_body, init_body, reads, is_rpc,
}
use pvxs.ServerGpr.Session.{
  Job, connect_job, error_job, reply_job, Session, Exec, Call, connect, setup_error, drop_setup,
  set_on_put, set_on_get, set_on_close, set_on_cancel, exec, reply, error, work, cancel, destroy,
  handle_exec, execute, connect_setup, run_job, run_work, run, run_all, has_type, cancel_request,
  reply_op, or_same, after_exec, is_creating,
}

-- The type that the reply to INIT tells, and the type of the value in a reply with a mask, are t.
abbrev pub OfType : {V K : Type 0} → ℕ → Body V K → Type 0
OfType t (described d) = d ≡ some t
OfType t (masked v k) = v.desc ≡ t
OfType t _ = Unit

abbrev pub AllOfType : {V K : Type 0} → ℕ → List (Event V K) → Type 0
AllOfType t [] = Unit
AllOfType t (replied c b ∷ ev) = OfType t b × AllOfType t ev
AllOfType t (e ∷ ev) = AllOfType t ev

module _ (V : Type 0) {K : Type 0} (t : ℕ) where
  AllOfType-append : (a b : List (Event V K)) → AllOfType t a → AllOfType t b → AllOfType t (a ++ b)
  AllOfType-append [] b h k = k
  AllOfType-append (replied c x ∷ a) b (h, hs) k = (h, AllOfType-append a b hs k)
  AllOfType-append (get_called ∷ a) b h k = AllOfType-append a b h k
  AllOfType-append (put_called v ∷ a) b h k = AllOfType-append a b h k
  AllOfType-append (rpc_called v ∷ a) b h k = AllOfType-append a b h k
  AllOfType-append (cancel_called ∷ a) b h k = AllOfType-append a b h k
  AllOfType-append (close_dispatched ∷ a) b h k = AllOfType-append a b h k

  -- The type stays, and the replies are of it.
  abbrev Keeps : ServerGpr K × List (Event V K) → Type 0
  Keeps r = (r.0.type ≡ some t) × AllOfType t r.1

  cleanup-Keeps : (m : ServerGpr K) → m.type ≡ some t → Keeps (cleanup {V = V} m)
  unfolding cleanup
  cleanup-Keeps m e = ground arith

  reply_last-Keeps :
      (m : ServerGpr K) (b : Body V K) → m.type ≡ some t → OfType t b → Keeps (reply_last m b)
  unfolding reply_last
  reply_last-Keeps m b e h =
      let (same, all) = cleanup-Keeps m e in
      (same, AllOfType-append (cleanup m).1 (replied m.subcmd b ∷ []) all (h, tt))

  exec_body-OfType :
      (m : ServerGpr K) (v : Option (Value V))
      → m.type ≡ some t
      → is_allowed m v ≡ true
      → OfType t (exec_body m v)
  exec_body-OfType m none e h =
      if-both (OfType t) (reads m.cmd m.subcmd) {x = nothing}
        {y = if is_rpc m.cmd then whole none else nothing} (λ _. tt)
        (λ _. if-both (OfType t) (is_rpc m.cmd) {x = whole none} {y = nothing} (λ _. tt) (λ _. tt))
  exec_body-OfType m (some v) e h =
      if-both (OfType t) (reads m.cmd m.subcmd) {x = masked v m.mask}
        {y = if is_rpc m.cmd then whole (some v) else nothing}
        (λ r. (==_iff v.desc t).0 (rw (r, e) at h))
        (λ _.
          if-both (OfType t) (is_rpc m.cmd) {x = whole (some v)} {y = nothing} (λ _. tt) (λ _. tt))

  init_body-OfType : (m : ServerGpr K) → m.type ≡ some t → OfType t (init_body {V = V} m)
  init_body-OfType m e =
      if-both (OfType t) (is_rpc m.cmd) {x = nothing} {y = described m.type} (λ _. tt) (λ _. e)

  reply_in-Keeps :
      (st : OpState) (m : ServerGpr K) (v : Option (Value V)) (failed : Bool)
      → m.type ≡ some t
      → Keeps (or_same m (reply_in st m v failed))
  unfolding reply_executing
  reply_in-Keeps creating m v true e = reply_last-Keeps m failure e tt
  reply_in-Keeps creating m v false e = (e, (init_body-OfType m e, tt))
  reply_in-Keeps executing m v true e = (e, (tt, tt))
  reply_in-Keeps executing m v false e =
      let last = reply_last m (exec_body m v) in
      let idle = reply_idle m (exec_body m v) in
      if-both (λ o. Keeps (or_same m o)) (is_allowed m v)
        {x = some (if m.last_request then last else idle)} {y = none}
        (λ ok.
          if-both Keeps m.last_request {x = last} {y = idle}
            (λ _. reply_last-Keeps m (exec_body m v) e (exec_body-OfType m v e ok))
            (λ _. (e, (exec_body-OfType m v e ok, tt))))
        (λ _. (e, tt))
  reply_in-Keeps idle m v failed e = (e, tt)
  reply_in-Keeps dead m v failed e = (e, tt)

  reply_op-Keeps :
      (linked : Bool) (m : ServerGpr K) (v : Option (Value V)) (failed : Bool)
      → m.type ≡ some t
      → Keeps (reply_op linked m v failed)
  unfolding do_reply
  reply_op-Keeps true m v failed e = reply_in-Keeps m.state m v failed e
  reply_op-Keeps false m v failed e = (e, tt)

  execute-AllOfType : (m : ServerGpr K) (x : Exec V) → AllOfType t (execute m x).0
  unfolding execute
  execute-AllOfType m x = ground arith

  module _ (request2mask : ℕ → Option K) where
    run_job-Keeps :
        (linked : Bool) (m : ServerGpr K) (j : Job V)
        → m.type ≡ some t
        → Keeps (run_job request2mask linked m j)
    unfolding run_job
    run_job-Keeps linked m (connect_job c) e =
        let typed : (not linked || not (is_creating m.state) || has_type m.type) ≡ true =
          ground (arith, ap has_type e) in
        rw typed (e, tt)
    run_job-Keeps linked m error_job e =
        if-both Keeps (is_creating m.state) (λ _. reply_op-Keeps linked m none true e)
          (λ _. (e, tt))
    run_job-Keeps linked m (reply_job v failed) e = reply_op-Keeps linked m v failed e

    abbrev Stays : Session V K × List (Event V K) → Type 0
    Stays r = (r.0.op.type ≡ some t) × AllOfType t r.1

    run_work-Stays :
        (linked : Bool) (s : Session V K) (js : List (Job V))
        → s.op.type ≡ some t
        → Stays (run_work request2mask linked s js)
    unfolding run_work
    run_work-Stays linked s [] e = (e, tt)
    run_work-Stays linked s (j ∷ js) e = run_job-Keeps linked s.op j e

    exec-Stays :
        (s : Session V K) (x : Exec V)
        → s.op.type ≡ some t
        → Stays (after_exec request2mask s (handle_exec s x))
    unfolding handle_exec
    exec-Stays s x e = ground (arith, execute-AllOfType s.op x)

    run-Stays : (s : Session V K) (c : Call V) → s.op.type ≡ some t → Stays (run request2mask s c)
    unfolding run connect_setup cancel_request
    run-Stays s (connect x) e = ground arith
    run-Stays s (setup_error b) e = ground arith
    run-Stays s drop_setup e = ground arith
    run-Stays s (set_on_put b) e = (e, tt)
    run-Stays s (set_on_get b) e = (e, tt)
    run-Stays s (set_on_close b) e = ground arith
    run-Stays s (set_on_cancel b) e = (e, tt)
    run-Stays s (exec x) e = exec-Stays s x e
    run-Stays s (reply v) e = (e, tt)
    run-Stays s (error b) e = ground arith
    run-Stays s (work linked) e = run_work-Stays linked s s.jobs e
    run-Stays s cancel e = ground arith
    run-Stays s destroy e = cleanup-Keeps s.op e

    -- Once the type of an operation is set, whatever calls follow, the type told in a reply to
    -- INIT is that type, and so is the type of every value that is sent with a mask (GET, and PUT
    -- with the Get flag).
    pub run_all-AllOfType :
        (s : Session V K) (cs : List (Call V))
        → s.op.type ≡ some t
        → AllOfType t (run_all request2mask s cs).1
    run_all-AllOfType s [] e = tt
    run_all-AllOfType s (c ∷ cs) e =
        let r = run request2mask s c in
        let (same, all) = run-Stays s c e in
        AllOfType-append r.1 (run_all request2mask r.0 cs).1 all (run_all-AllOfType r.0 cs same)
