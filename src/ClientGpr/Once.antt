-- ===== src/ClientGpr/Once.antt =====
-- src/clientget.cpp: how often the callback of an operation with autoExec is called.
use pvxs.Prelude.{
  true≢false, subst, sym, ◌∙◌, ◌+◌, ◌≤◌, ◌≡◌, refl, true, false, ◌&&◌, not, Option, none, some,
  List, [], ◌∷◌, if◌then◌else◌, if-both, arith,
}
use pvxs.ServerGpr.State.{is_rpc, is_get}
use pvxs.ClientGpr.State.{
  is_idle, State, connecting, creating, idle, get_o_put, build_put, exec, done, failed, remote,
  value, Values, GprOp, Action, cancel_op, cancel, notify, send_reply, before, re_exec, create_op,
  disconnected, disconnected_in, return_to_pending, lost, unexpected,
}
use pvxs.ClientGpr.Receive.{
  Reply, Outcome, dropped, ignored, handled, call_init, or_dropped, on_failure, on_created, on_got,
  on_executed, assign_got, advance, handle_gpr, receive_decoded, read_value, read_into, stores_type,
  reads_value, decode, is_exec, advance_in, same_cmd, is_expected, is_init, has_get,
}
use pvxs.ClientGpr.Session.{
  Call, create, disconnect, receive, stop, drop, re_exec_get, re_exec_put, run, run_all,
  after_receive,
}
use pvxs.ClientGpr.Owed.{
  expected_owed, idle_owed, owed, completions, completions-append, Completes, Ends,
  notify-Completes, before-Settles, or_dropped-Ends, call_init-Completes, send_reply-Ends,
  re_exec-Settles,
}

module _ {V : Type 0} (vs : Values V) where
  on_failure-Ends : (m : GprOp V) → m.auto_exec ≡ true → Ends 1 (on_failure vs m)
  unfolding on_failure
  on_failure-Ends m h =
      if-both (Ends 1) (is_exec m.state && not m.auto_exec)
        {y = or_dropped (send_reply vs (record m { result = failed remote; state = done }))}
        (λ e. ground arith)
        (λ _. send_reply-Ends vs (record m { result = failed remote; state = done }) h)

  on_created-Ends : (m : GprOp V) (v : Option V) → m.auto_exec ≡ true → Ends 1 (on_created vs m v)
  unfolding on_created
  on_created-Ends m v h =
      let m1 = record m { state = idle; arg = if is_rpc m.cmd then m.arg else v } in
      let r = call_init m.on_init v m1 in
      let c = call_init-Completes m.on_init v m1 refl h in
      if-both (Ends 1) (is_idle r.0.state && r.0.auto_exec)
        {x = or_dropped (before r.1 (re_exec vs r.0 (not r.0.get_oput)))} {y = handled r}
        (λ e. or_dropped-Ends 1 (before r.1 (re_exec vs r.0 (not r.0.get_oput))) (
          before-Settles 1 r.1 (re_exec vs r.0 (not r.0.get_oput))
            (omega (arith, c, idle_owed r.0.state r.0.auto_exec e))
            (re_exec-Settles vs r.0 (not r.0.get_oput) c.1)))
        (λ _. c)

  assign_got-Ends :
      (m : GprOp V) (a v : Option V) → m.auto_exec ≡ true → Ends 1 (assign_got vs m a v)
  assign_got-Ends m none v h = tt
  assign_got-Ends m (some a) none h = tt
  assign_got-Ends m (some a) (some v) h =
      let m1 = record m { arg = some (vs.assign a v) } in
      if-both (Ends 1) m.auto_exec
        {x = or_dropped (send_reply vs (record m1 { state = build_put }))}
        {y = handled (notify (record m1 { state = idle; result = value (some v) }))}
        (λ _. send_reply-Ends vs (record m1 { state = build_put }) h)
        (λ e. absurd (true≢false (sym h ∙ e)))

  on_executed-Ends : (m : GprOp V) (v : Option V) → m.auto_exec ≡ true → Ends 1 (on_executed vs m v)
  unfolding on_executed
  on_executed-Ends m v h =
      let m1 = record m { result = value v } in
      if-both (Ends 1) m.auto_exec {x = or_dropped (send_reply vs (record m1 { state = done }))}
        {y = handled (notify (record m1 { state = idle }))}
        (λ _. send_reply-Ends vs (record m1 { state = done }) h)
        (λ e. absurd (true≢false (sym h ∙ e)))

  advance_in-Ends :
      (st : State) (m : GprOp V) (v : Option V) → m.auto_exec ≡ true → Ends 1 (advance_in vs st m v)
  unfolding on_got
  advance_in-Ends creating m v h = on_created-Ends m v h
  advance_in-Ends get_o_put m v h = assign_got-Ends m m.arg v h
  advance_in-Ends exec m v h = on_executed-Ends m v h
  advance_in-Ends connecting m v h = tt
  advance_in-Ends idle m v h = tt
  advance_in-Ends build_put m v h = tt
  advance_in-Ends done m v h = tt

  advance-Ends :
      (m : GprOp V) (r : Reply V) (v : Option V)
      → m.auto_exec ≡ true
      → Ends (owed m.state) (advance vs m r v)
  unfolding advance
  advance-Ends m r v h =
      if-both (Ends (owed m.state))
        (same_cmd r.cmd m.cmd && is_expected m.state (is_init r) (has_get r))
        {x = if r.success then advance_in vs m.state m v else on_failure vs m} {y = dropped}
        (λ e.
          subst (λ n. Ends n (if r.success then advance_in vs m.state m v else on_failure vs m))
            (sym (expected_owed m.state _ _ _ e))
            (if-both (Ends 1) r.success {x = advance_in vs m.state m v} {y = on_failure vs m}
              (λ _. advance_in-Ends m.state m v h) (λ _. on_failure-Ends m h)))
        (λ _. tt)

  read_value-Ends :
      (m : GprOp V) (r : Reply V) (p : Option V)
      → m.auto_exec ≡ true
      → Ends (owed m.state) (read_value vs m r p)
  read_value-Ends m r none h = advance-Ends m r none h
  read_value-Ends m r (some p) h =
      elim (r.valid (vs.clone_empty p)) as (λ o. Ends (owed m.state) (read_into vs m r p o)) [
        | none ↦ tt
        | some v ↦
            let (cache, delta) = vs.cache_sync p v in
            advance-Ends (record m { prototype = some cache }) r (some delta) h
      ]

  handle_gpr-Ends :
      (m : GprOp V) (r : Reply V) → m.auto_exec ≡ true → Ends (owed m.state) (handle_gpr vs m r)
  unfolding handle_gpr
  handle_gpr-Ends m r h = elim (decode r) as (λ o. Ends (owed m.state) (receive_decoded vs m r o)) [
    | none ↦ tt
    | some v ↦
        if-both (Ends (owed m.state)) (not m.registered) (λ _. tt)
          (λ _.
            if-both (Ends (owed m.state)) (stores_type r)
              (λ _. advance-Ends (record m { prototype = v }) r v h)
              (λ _.
                if-both (Ends (owed m.state)) (reads_value r)
                  (λ _. read_value-Ends m r m.prototype h) (λ _. advance-Ends m r v h)))
  ]

  disconnected_in-Completes :
      (st : State) (m : GprOp V)
      → m.state ≡ st
      → m.auto_exec ≡ true
      → Completes (owed st) (disconnected_in st m)
  disconnected_in-Completes connecting m e h = rw e (omega arith, h)
  disconnected_in-Completes done m e h = rw e (omega arith, h)
  disconnected_in-Completes creating m e h = (omega arith, h)
  disconnected_in-Completes idle m e h = (omega arith, h)
  disconnected_in-Completes get_o_put m e h = (omega arith, h)
  disconnected_in-Completes exec m e h =
      let m1 = record m { state = done; result = failed lost } in
      if-both (Completes 1) (not (is_get m.cmd) && not m.auto_exec) {x = notify m1}
        {y = return_to_pending m} (λ _. notify-Completes m1 h) (λ _. (omega arith, h))
  disconnected_in-Completes build_put m e h =
      notify-Completes (record m { state = done; result = failed unexpected }) h

  create_op-Completes : (m : GprOp V) → m.auto_exec ≡ true → Completes (owed m.state) (create_op m)
  unfolding create_op
  create_op-Completes m h = ground arith

  disconnected-Completes :
      (m : GprOp V) → m.auto_exec ≡ true → Completes (owed m.state) (disconnected m)
  unfolding disconnected
  disconnected-Completes m h =
      let m1 = record m { registered = false } in
      if-both (Completes (owed m.state)) m.registered {x = disconnected_in m.state m1} {y = (m, [])}
        (λ _. disconnected_in-Completes m.state m1 refl h) (λ _. (omega arith, h))

  after_receive-Completes :
      (m : GprOp V) (o : Outcome (GprOp V × List (Action V)))
      → m.auto_exec ≡ true
      → Ends (owed m.state) o
      → Completes (owed m.state) (after_receive m o)
  after_receive-Completes m dropped h e = (omega arith, h)
  after_receive-Completes m ignored h e = (omega arith, h)
  after_receive-Completes m (handled r) h e = e

  stop-Completes :
      (m : GprOp V)
      → m.auto_exec ≡ true
      → Completes (owed m.state) ((cancel m).0, (cancel m).1)
        × Completes (owed m.state) ((cancel_op m).0, (cancel_op m).1)
  unfolding cancel cancel_op
  stop-Completes m h = ground arith

  run-Completes :
      (m : GprOp V) (c : Call V) → m.auto_exec ≡ true → Completes (owed m.state) (run vs m c)
  unfolding run
  run-Completes m create h = create_op-Completes m h
  run-Completes m disconnect h = disconnected-Completes m h
  run-Completes m (receive r) h =
      after_receive-Completes m (handle_gpr vs m r) h (handle_gpr-Ends m r h)
  run-Completes m stop h = (stop-Completes m h).0
  run-Completes m drop h = (stop-Completes m h).1
  run-Completes m (re_exec_get cb) h = ground arith
  run-Completes m (re_exec_put v cb) h = ground arith

  -- An operation with autoExec calls its result callback at most once, whatever messages, losses
  -- of its connection, cancellations and misbehaving callbacks come: the calls, and one more while
  -- it is not Done, are at most one, and none if it was Done at the start.
  pub run_all-completions :
      (m : GprOp V) (cs : List (Call V))
      → m.auto_exec ≡ true
      → completions (run_all vs m cs).1 + owed (run_all vs m cs).0.state ≤ owed m.state
  run_all-completions m [] h = omega arith
  run_all-completions m (c ∷ cs) h =
      let r = run vs m c in
      let s = run-Completes m c h in
      omega (arith, s, run_all-completions r.0 cs s.1, completions-append r.1 (run_all vs r.0 cs).1)
