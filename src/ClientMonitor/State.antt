-- ===== src/ClientMonitor/State.antt =====
-- src/clientmon.cpp: SubscriptionImpl, its calls from the user's code and from its channel.
use pvxs.Prelude.{
  ℕ, zero, suc, ◌+◌, ◌%◌, ◌^◌, Bool, true, false, ◌&&◌, ◌||◌, not, Option, none, some, List, [],
  ◌∷◌, ◌++◌, leb, ◌==◌, if◌then◌else◌,
}

-- SubscriptionImpl::state_t
pub data SubState : Type 0 where
  connecting creating idle running done : SubState

abbrev pub is_connecting : SubState → Bool
is_connecting connecting = true
is_connecting _ = false

abbrev pub is_idle : SubState → Bool
is_idle idle = true
is_idle _ = false

abbrev pub is_running : SubState → Bool
is_running running = true
is_running _ = false

-- The states in which the server has the operation.
abbrev pub is_active : SubState → Bool
is_active s = is_idle s || is_running s

abbrev pub is_done : SubState → Bool
is_done done = true
is_done _ = false

-- A queue entry: an update, or one of the exceptions that tell of an event.
pub data Entry (V : Type 0) : Type 0 where
  value : V → Entry V
  connected : Entry V
  disconnect : Entry V
  finished : Entry V
  remote_error : Entry V

pub record Subscription (V : Type 0) : Type 0 where
  pub state : SubState
  pub pipeline : Bool
  pub autostart : Bool
  pub mask_conn : Bool
  pub mask_discon : Bool
  pub queue_size : ℕ
  pub ack_at : ℕ
  pub queue : List (Entry V)
  pub window : ℕ
  pub unack : ℕ
  pub n_srv_squash : ℕ
  pub n_cli_squash : ℕ
  pub queue_max : ℕ
  pub need_notify : Bool
  pub ack_pending : Bool

-- What a call does outside the subscription.
pub data Action : Type 0 where
  send_init : Option ℕ → Action
  send_start : Action
  send_stop : Action
  send_ack : ℕ → Action
  send_destroy : Action
  schedule_ack : Action
  cancel_ack : Action
  notify : Action

abbrev pub has_entry : {V : Type 0} → List (Entry V) → Bool
has_entry [] = false
has_entry (e ∷ q) = true

module _ {V : Type 0} where
  unfoldable pub pause : Subscription V → Bool → Subscription V × List Action
  pause m p =
      if (is_idle m.state && not p) || (is_running m.state && p)
      then (
        record m { state = if p then idle else running },
        (if p then send_stop else send_start) ∷ [],
      )
      else (m, [])

  -- `notify = queue.empty() && wantToNotify()`, the entry that is pushed, and `doNotify`.
  unfoldable pub push_event : Subscription V → Entry V → Subscription V × List Action
  push_event m e =
      let q = m.queue ++ (e ∷ []) in
      if has_entry m.queue
      then (record m { queue = q }, [])
      else (record m { queue = q; need_notify = false }, if m.need_notify then notify ∷ [] else [])

  -- `createOp`
  abbrev pub init_message : Subscription V → Action
  init_message m = send_init (if m.pipeline then some m.queue_size else none)

  abbrev pub open_window : Subscription V → Subscription V
  open_window m = record m { window = if m.pipeline then m.queue_size else m.window }

  unfoldable pub create_op : Subscription V → Subscription V × List Action
  unfolding push_event
  create_op m =
      if is_connecting m.state
      then (let m1 = record m { state = creating } in
          let r = if m.mask_conn then (m1, []) else push_event m1 connected in
          (open_window r.0, init_message m ∷ r.1))
      else (m, [])

  unfoldable pub disconnected : Subscription V → Subscription V × List Action
  unfolding push_event
  disconnected m =
      if is_connecting m.state || is_done m.state
      then (m, [])
      else (let r = if m.mask_discon then (m, []) else push_event m disconnect in
          (record r.0 { state = connecting }, r.1))

  unfoldable pub tick_ack : Subscription V → Subscription V × List Action
  tick_ack m =
      if is_active m.state && m.pipeline && not (m.unack == 0)
      then (
        record m { ack_pending = false; window = (m.window + m.unack) % 2 ^ 32; unack = 0 },
        send_ack m.unack ∷ [],
      )
      else (record m { ack_pending = false }, [])

  -- `_cancel`, with its result.
  unfoldable pub cancel : Subscription V → Subscription V × List Action × Bool
  cancel m = (
    record m { state = done },
    if is_active m.state then send_destroy ∷ (if m.pipeline then cancel_ack ∷ [] else []) else [],
    not (is_done m.state),
  )

-- What `_pop` comes to: an empty queue, an exception that it leaves there, one that it throws, or an
-- update.
pub data Popped (V : Type 0) : Type 0 where
  nothing : Popped V
  kept : Popped V
  threw : Entry V → Popped V
  popped : V → Popped V

-- What `doPop` takes: the updates, or the exception that came first.
abbrev pub Taken : Type 0 → Type 0
Taken V = Option (Entry V) × List V

module _ {V : Type 0} where
  abbrev pub outcome : Entry V → Popped V
  outcome (value v) = popped v
  outcome e = threw e

  abbrev pub is_event : Entry V → Bool
  is_event (value v) = false
  is_event e = true

  -- One more entry to acknowledge.
  abbrev pub count_ack : Subscription V → Subscription V × List Action
  count_ack m =
      let n = (m.unack + 1) % 2 ^ 32 in
      if m.pipeline
      then (let due = not m.ack_pending && leb m.ack_at n in
          (
            record m { unack = n; ack_pending = m.ack_pending || due },
            if due then schedule_ack ∷ [] else [],
          ))
      else (m, [])

  abbrev pub pop_from :
      List (Entry V) → Subscription V → Bool → Subscription V × List Action × Popped V
  pop_from [] m canthrow = (record m { need_notify = true }, [], nothing)
  pop_from (e ∷ q) m canthrow =
      if not canthrow && is_event e
      then (m, [], kept)
      else (let r = count_ack (record m { queue = q }) in (r.0, r.1, outcome e))

  unfoldable pub pop_entry : Subscription V → Bool → Subscription V × List Action × Popped V
  pop_entry m canthrow = pop_from m.queue m canthrow

  -- The loop of `doPop`, with room for n more.
  abbrev pub take_more :
      Subscription V × List Action × Popped V
      → Subscription V × List Action × Taken V
      → Subscription V × List Action × Taken V
  take_more (m, a, nothing) rest = (m, a, (none, []))
  take_more (m, a, kept) rest = (m, a, (none, []))
  take_more (m, a, threw e) rest = (m, a, (some e, []))
  take_more (m, a, popped v) (m', a', (e, vs)) = (m', a ++ a', (e, v ∷ vs))

  unfoldable pub pop_loop : ℕ → Subscription V → Bool → Subscription V × List Action × Taken V
  unfolding pop_entry
  pop_loop zero m first = (m, [], (none, []))
  pop_loop (suc n) m first =
      let p = pop_entry m first in let rest = pop_loop n p.0 false in take_more p rest

  unfoldable pub do_pop : Subscription V → ℕ → Subscription V × List Action × Taken V
  unfolding pop_loop
  do_pop m limit = pop_loop (if limit == 0 then m.queue_size else limit) m true
