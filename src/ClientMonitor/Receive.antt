-- ===== src/ClientMonitor/Receive.antt =====
-- src/clientmon.cpp: `Connection::handle_MONITOR`, on a decoded message for a subscription that was
-- found. What the user's onInit does is in the message: whether it throws.
use pvxs.Prelude.{
  ◌+◌, ◌-◌, Bool, true, false, ◌&&◌, ◌||◌, not, Option, none, some, List, [], ◌∷◌, ◌++◌, leb, max,
  length, if◌then◌else◌,
}
use pvxs.ClientMonitor.State.{
  SubState, creating, idle, running, done, is_done, Entry, value, finished, remote_error,
  Subscription, Action, send_destroy, cancel_ack, notify, has_entry, pause,
}

pub record Message (V : Type 0) : Type 0 where
  pub good : Bool
  pub init : Bool
  pub final : Bool
  pub success : Bool
  -- the update, where there is one: never with an INIT
  pub payload : Option V
  pub serv_squash : Bool
  pub init_throws : Bool

abbrev pub expects : SubState → Bool → Bool
expects creating init = init
expects idle init = not init
expects running init = not init
expects _ init = false

module _ {V : Type 0} where
  -- The state, and the entry that the message makes.
  abbrev pub created : Subscription V → Message V → Subscription V × List Action
  created m msg =
      if msg.init_throws
      then (record m { state = done }, [])
      else (if m.autostart
          then pause (record m { state = idle }) false
          else (record m { state = idle }, []))

  abbrev pub as_entry : Option V → Option (Entry V)
  as_entry none = none
  as_entry (some v) = some (value v)

  -- An exception of onInit makes an entry too, which an INIT never queues.
  abbrev pub turn : Subscription V → Message V → Subscription V × List Action × Option (Entry V)
  turn m msg =
      if not msg.success
      then (record m { state = done }, [], some remote_error)
      else (if msg.init
          then (let r = created m msg in (r.0, r.1, none))
          else (m, [], as_entry msg.payload))

  abbrev pub push_entry : Subscription V → Entry V → Subscription V
  push_entry m e = record m { queue = m.queue ++ (e ∷ []) }

  -- `wantToNotify`, where the notification is due.
  abbrev pub want_to_notify : Subscription V → Bool → Subscription V × List Action
  want_to_notify m due =
      if due
      then (record m { need_notify = false }, if m.need_notify then notify ∷ [] else [])
      else (m, [])

  abbrev pub close_window : Subscription V → Subscription V
  close_window m = record m { window = if m.pipeline then m.window - 1 else m.window }

  abbrev pub finish_entry : Subscription V → Bool → Subscription V
  finish_entry m final = if final then push_entry m finished else m

  abbrev pub count_max : Subscription V → Subscription V
  count_max m = record m { queue_max = max m.queue_max (length m.queue) }

  abbrev pub count_squash : Subscription V → Bool → Subscription V
  count_squash m squash = record m { n_srv_squash = m.n_srv_squash + (if squash then 1 else 0) }

  abbrev pub end_message : Subscription V → Bool → Subscription V × List Action
  end_message m final =
      if is_done m.state || final
      then (
        record m { state = done },
        (if m.pipeline then cancel_ack ∷ [] else []) ++ (if final then [] else send_destroy ∷ []),
      )
      else (m, [])

  abbrev pub put_back : Entry V → Option (List (Entry V)) → Option (List (Entry V))
  put_back e none = none
  put_back e (some q) = some (e ∷ q)

  abbrev pub squash_or : Subscription V → V → Option (List (Entry V)) → Subscription V
  squash_or m v none = push_entry m (value v)
  squash_or m v (some q) = record m { queue = q; n_cli_squash = m.n_cli_squash + 1 }

module _ {V : Type 0} (assign : V → V → V) where
  -- Whether the update is taken into the last entry, and what the queue is then.
  abbrev pub assign_back : List (Entry V) → V → Option (List (Entry V))
  assign_back [] v = none
  assign_back (value b ∷ []) v = some (value (assign b v) ∷ [])
  assign_back (e ∷ []) v = none
  assign_back (e ∷ f ∷ q) v = put_back e (assign_back (f ∷ q) v)

  unfoldable pub add_entry : Subscription V → Option (Entry V) → Subscription V
  add_entry m none = m
  add_entry m (some (value v)) =
      squash_or m v (
        if leb m.queue_size (length m.queue) && not m.pipeline then assign_back m.queue v else none)
  add_entry m (some e) = push_entry m e

  -- The part that holds the lock.
  unfoldable pub store :
      Subscription V → Message V → Option (Entry V) → Subscription V × List Action
  unfolding add_entry
  store m msg e =
      let due = not (has_entry m.queue) in
      if msg.init
      then (if msg.success then (m, []) else want_to_notify (push_entry m remote_error) true)
      else (let m1 = count_max (finish_entry (add_entry (close_window m) e) msg.final) in
          want_to_notify m1 (due && has_entry m1.queue))

  -- `none`: the connection is dropped.
  unfoldable pub handle_message : Subscription V → Message V → Option (Subscription V × List Action)
  unfolding store
  handle_message m msg =
      if msg.good && expects m.state msg.init
      then (let t = turn m msg in
          let s = store t.0 msg t.2 in
          let e = end_message (count_squash s.0 msg.serv_squash) msg.final in
          some (e.0, t.1 ++ (e.1 ++ s.1)))
      else none
