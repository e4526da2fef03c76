-- ===== src/ClientGpr/Owed.antt =====
-- src/clientget.cpp: the result callback as a debt of the operation, in what it does by itself.
use pvxs.Prelude.{
  ap, subst, ◌∙◌, ℕ, suc, ◌+◌, ◌≤◌, ◌≡◌, refl, Bool, true, false, ◌&&◌, Option, none, some, List,
  [], ◌∷◌, ◌++◌, if-both, arith,
}
use pvxs.ClientGpr.State.{
  is_idle, State, connecting, creating, idle, get_o_put, build_put, exec, done, failed, init_threw,
  builder_threw, Callback, Values, GprOp, Action, sent_init, sent_get, sent_exec, sent_destroy,
  init_called, builder_called, done_called, re_exec_refused, cancel_op, cancel, cancel_if, notify,
  call_done, send_state, send_in, send_reply, empty_clone, build, after_build, before, exec_state,
  re_exec,
}
use pvxs.ClientGpr.Receive.{Outcome, handled, call_init, or_dropped, is_expected}

-- A call of the callback is owed until the operation is Done.
abbrev pub owed : State → ℕ
owed done = 0
owed _ = 1

pub idle_owed : (st : State) (b : Bool) → is_idle st && b ≡ true → owed st ≡ 1
idle_owed idle b h = refl
idle_owed connecting b h = refl
idle_owed creating b h = refl
idle_owed get_o_put b h = refl
idle_owed build_put b h = refl
idle_owed exec b h = refl
idle_owed done b h = cc

pub expected_owed :
    (st : State) (same init gets : Bool) → same && is_expected st init gets ≡ true → owed st ≡ 1
expected_owed creating s i g h = refl
expected_owed get_o_put s i g h = refl
expected_owed exec s i g h = refl
expected_owed connecting s i g h = refl
expected_owed idle s i g h = refl
expected_owed build_put s i g h = refl
expected_owed done true i g h = cc
expected_owed done false i g h = cc

module _ {V : Type 0} where
  abbrev pub completions : List (Action V) → ℕ
  completions [] = 0
  completions (done_called r ∷ rest) = suc (completions rest)
  completions (a ∷ rest) = completions rest

  pub completions-append :
      (a b : List (Action V)) → completions (a ++ b) ≡ completions a + completions b
  completions-append [] b = omega arith
  completions-append (done_called r ∷ a) b = omega (arith, completions-append a b)
  completions-append (sent_init ∷ a) b = completions-append a b
  completions-append (sent_get ∷ a) b = completions-append a b
  completions-append (sent_exec p ∷ a) b = completions-append a b
  completions-append (sent_destroy ∷ a) b = completions-append a b
  completions-append (init_called v ∷ a) b = completions-append a b
  completions-append (builder_called v ∷ a) b = completions-append a b
  completions-append (re_exec_refused ∷ a) b = completions-append a b

  abbrev pub Completes : ℕ → GprOp V × List (Action V) → Type 0
  Completes n r = (completions r.1 + owed r.0.state ≤ n) × (r.0.auto_exec ≡ true)

  abbrev pub Settles : ℕ → Option (GprOp V × List (Action V)) → Type 0
  Settles n none = Unit
  Settles n (some r) = Completes n r

  abbrev pub Ends : ℕ → Outcome (GprOp V × List (Action V)) → Type 0
  Ends n (handled r) = Completes n r
  Ends n _ = Unit

  pub cancel_lem :
      (b : Bool) (m : GprOp V)
      → let r = cancel_if b m in
        (completions r.1 ≡ 0) × (owed r.0.state ≤ owed m.state) × (r.0.auto_exec ≡ m.auto_exec)
  unfolding cancel cancel_op
  cancel_lem b m = ground arith

  pub notify-Completes :
      (m : GprOp V) → m.auto_exec ≡ true → Completes (1 + owed m.state) (notify m)
  unfolding notify
  notify-Completes m h = elim m.on_done as (λ o. Completes (1 + owed m.state) (call_done o m)) [
    | none ↦ (omega arith, h)
    | some f ↦
        let c = cancel_lem (f m.result).cancels (record m { done_busy = true }) in
        (omega (arith, c), c.2 ∙ h)
  ]

  -- The message of a state other than Done leaves the state.
  pub send_state-Settles :
      (st : State) (m : GprOp V) (v : Option V)
      → m.state ≡ st
      → m.auto_exec ≡ true
      → Settles 1 (send_state st m v)
  send_state-Settles get_o_put m v e h = rw e (omega arith, h)
  send_state-Settles exec m v e h = rw e (omega arith, h)
  send_state-Settles done m v e h =
      subst (λ n. Completes (1 + n) (notify (record m { registered = false }))) (ap owed e)
        (notify-Completes (record m { registered = false }) h)
  send_state-Settles connecting m v e h = tt
  send_state-Settles creating m v e h = tt
  send_state-Settles idle m v e h = tt
  send_state-Settles build_put m v e h = tt

  pub before-Settles :
      (n : ℕ) (a : List (Action V)) (o : Option (GprOp V × List (Action V)))
      → completions a ≡ 0
      → Settles n o
      → Settles n (before a o)
  before-Settles n a none e h = tt
  before-Settles n a (some r) e h = (omega (arith, completions-append a r.1), h.1)

  pub after_build-Settles :
      (o : Option (Option V)) (m : GprOp V) → m.auto_exec ≡ true → Settles 1 (after_build o m)
  after_build-Settles none m h =
      send_state-Settles done
        (record m { state = done; result = failed builder_threw; builder_busy = false }) none refl h
  after_build-Settles (some v) m h =
      send_state-Settles exec (record m { state = exec; builder_busy = false }) v refl h

  pub or_dropped-Ends :
      (n : ℕ) (o : Option (GprOp V × List (Action V))) → Settles n o → Ends n (or_dropped o)
  or_dropped-Ends n none h = tt
  or_dropped-Ends n (some r) h = h

  pub call_init-Completes :
      (o : Option (Option V → Callback)) (v : Option V) (m : GprOp V)
      → m.state ≡ idle
      → m.auto_exec ≡ true
      → Completes 1 (call_init o v m)
  call_init-Completes none v m e h = rw e (omega arith, h)
  call_init-Completes (some f) v m e h =
      let b = f v in
      let r = cancel_if b.cancels (record m { init_busy = true }) in
      let c = cancel_lem b.cancels (record m { init_busy = true }) in
      let m1 = record r.0 { init_busy = false } in
      let m2 = record m1 { result = failed init_threw; state = done } in
      let n = notify-Completes m2 (c.2 ∙ h) in
      if-both (Completes 1) b.throws {x = ((notify m2).0, init_called v ∷ r.1 ++ (notify m2).1)}
        {y = (m1, init_called v ∷ r.1)}
        (λ _. (omega (arith, n, c, completions-append (init_called v ∷ r.1) (notify m2).1), n.1))
        (λ _. (omega (arith, c, ap owed e), c.2 ∙ h))

module _ {V : Type 0} (vs : Values V) where
  pub send_in-Settles :
      (st : State) (m : GprOp V) → m.state ≡ st → m.auto_exec ≡ true → Settles 1 (send_in vs st m)
  send_in-Settles build_put m e h = elim m.builder as (λ o. Settles 1 (build vs o m)) [
    | none ↦ send_state-Settles exec (record m { state = exec }) (empty_clone vs m.arg) refl h
    | some f ↦
        let b = f m.arg in
        let m1 = record m { builder_busy = true } in
        let c = cancel_lem b.cancels m1 in
        before-Settles 1 (builder_called m.arg ∷ (cancel_if b.cancels m1).1) _ c.0
          (after_build-Settles b.built (cancel_if b.cancels m1).0 (c.2 ∙ h))
  ]
  send_in-Settles connecting m e h = tt
  send_in-Settles creating m e h = tt
  send_in-Settles idle m e h = tt
  send_in-Settles get_o_put m e h = send_state-Settles get_o_put m none e h
  send_in-Settles exec m e h = send_state-Settles exec m none e h
  send_in-Settles done m e h = send_state-Settles done m none e h

  pub send_reply-Settles : (m : GprOp V) → m.auto_exec ≡ true → Settles 1 (send_reply vs m)
  unfolding send_reply
  send_reply-Settles m h = send_in-Settles m.state m refl h

  pub send_reply-Ends : (m : GprOp V) → m.auto_exec ≡ true → Ends 1 (or_dropped (send_reply vs m))
  send_reply-Ends m h = or_dropped-Ends 1 (send_reply vs m) (send_reply-Settles m h)

  pub re_exec-Settles :
      (m : GprOp V) (is_write : Bool) → m.auto_exec ≡ true → Settles 1 (re_exec vs m is_write)
  unfolding re_exec
  re_exec-Settles m is_write h =
      send_reply-Settles (record m { state = exec_state m.cmd is_write }) h
