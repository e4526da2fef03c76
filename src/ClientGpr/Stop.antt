-- ===== src/ClientGpr/Stop.antt =====
-- src/clientget.cpp: an operation that is Done, or that is cancelled.
use pvxs.Prelude.{
  ◌≡◌, refl, not, Option, none, some, List, [], ◌∷◌, ◌++◌, if◌then◌else◌, if-both, arith, All,
}
use pvxs.ClientGpr.State.{
  done, Values, GprOp, Action, re_exec_refused, sent_destroy, on_server, cancel, cancel_op,
  create_op, disconnected,
}
use pvxs.ClientGpr.Receive.{
  Reply, Outcome, handled, advance, handle_gpr, receive_decoded, read_value, read_into, stores_type,
  reads_value, decode,
}
use pvxs.ClientGpr.Session.{
  Call, create, disconnect, receive, stop, drop, re_exec_get, re_exec_put, run, run_all,
  after_receive,
}

module _ {V : Type 0} where
  abbrev pub IsRefusal : Action V → Type 0
  IsRefusal a = a ≡ re_exec_refused

  abbrev pub Inert : GprOp V × List (Action V) → Type 0
  Inert r = (r.0.state ≡ done) × All IsRefusal r.1

  All-append : (a b : List (Action V)) → All IsRefusal a → All IsRefusal b → All IsRefusal (a ++ b)
  All-append [] b h k = k
  All-append (x ∷ a) b h k = (h.0, All-append a b h.1 k)

  -- No reply is handled.
  abbrev Refused : Outcome (GprOp V × List (Action V)) → Type 0
  Refused (handled r) = ⊥
  Refused _ = Unit

  after_receive-Inert :
      (m : GprOp V) (o : Outcome (GprOp V × List (Action V)))
      → m.state ≡ done
      → Refused o
      → Inert (after_receive m o)
  after_receive-Inert m (handled r) e h = absurd h
  after_receive-Inert m Outcome.dropped e h = (e, tt)
  after_receive-Inert m Outcome.ignored e h = (e, tt)

  stop-Inert :
      (m : GprOp V)
      → m.state ≡ done
      → Inert ((cancel m).0, (cancel m).1) × Inert ((cancel_op m).0, (cancel_op m).1)
  unfolding cancel cancel_op
  stop-Inert m h = ground arith

module _ {V : Type 0} (vs : Values V) where
  advance-Refused :
      (m : GprOp V) (r : Reply V) (v : Option V) → m.state ≡ done → Refused (advance vs m r v)
  unfolding advance
  advance-Refused m r v h = ground arith

  read_value-Refused :
      (m : GprOp V) (r : Reply V) (p : Option V) → m.state ≡ done → Refused (read_value vs m r p)
  read_value-Refused m r none h = advance-Refused m r none h
  read_value-Refused m r (some p) h =
      elim (r.valid (vs.clone_empty p)) as (λ o. Refused (read_into vs m r p o)) [
        | none ↦ tt
        | some v ↦
            let (cache, delta) = vs.cache_sync p v in
            advance-Refused (record m { prototype = some cache }) r (some delta) h
      ]

  handle_gpr-Refused : (m : GprOp V) (r : Reply V) → m.state ≡ done → Refused (handle_gpr vs m r)
  unfolding handle_gpr
  handle_gpr-Refused m r h = elim (decode r) as (λ o. Refused (receive_decoded vs m r o)) [
    | none ↦ tt
    | some v ↦
        if-both Refused (not m.registered) (λ _. tt)
          (λ _.
            if-both Refused (stores_type r)
              (λ _. advance-Refused (record m { prototype = v }) r v h)
              (λ _.
                if-both Refused (reads_value r) (λ _. read_value-Refused m r m.prototype h)
                  (λ _. advance-Refused m r v h)))
  ]

  run-Inert : (m : GprOp V) (c : Call V) → m.state ≡ done → Inert (run vs m c)
  unfolding run create_op disconnected
  run-Inert m create h = ground arith
  run-Inert m disconnect h = ground arith
  run-Inert m (receive r) h = after_receive-Inert m (handle_gpr vs m r) h (handle_gpr-Refused m r h)
  run-Inert m stop h = (stop-Inert m h).0
  run-Inert m drop h = (stop-Inert m h).1
  run-Inert m (re_exec_get cb) h = ground arith
  run-Inert m (re_exec_put v cb) h = ground arith

  run_all-Inert : (m : GprOp V) (cs : List (Call V)) → m.state ≡ done → Inert (run_all vs m cs)
  run_all-Inert m [] h = (h, tt)
  run_all-Inert m (c ∷ cs) h =
      let r = run-Inert m c h in
      let rest = run_all-Inert (run vs m c).0 cs r.0 in
      (rest.0, All-append (run vs m c).1 (run_all vs (run vs m c).0 cs).1 r.1 rest.1)

  -- After a call of cancel() that is not made in a callback or in the builder of the operation,
  -- the operation is Done for good: it sends DESTROY_REQUEST if the server had it in Idle, GetOPut
  -- or Exec, and then, whatever follows, it sends nothing and calls no callback but that of a
  -- reExec that is refused.
  pub run_all-stopped :
      (m : GprOp V) (cs : List (Call V))
      → let r = run_all vs m (stop ∷ cs) in
        (r.0.state ≡ done)
        × ((rest : List (Action V)) × (r.1
              ≡ (if on_server m.state then sent_destroy ∷ [] else []) ++ rest)
            × All IsRefusal rest)
  unfolding run cancel cancel_op
  run_all-stopped m cs =
      let m1 = (run vs m stop).0 in
      let r = run_all-Inert m1 cs refl in (r.0, ((run_all vs m1 cs).1, refl, r.1))
