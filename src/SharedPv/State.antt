-- ===== src/SharedPv/State.antt =====
-- src/sharedpv.cpp: SharedPV, with one function per method and per callback that attach() sets.
-- Channels, operations and subscriptions are numbers that stand for their addresses. A std::set of
-- addresses is a list in the order of insertion.
use pvxs.Prelude.{
  is_none, ℕ, ◌+◌, Bool, true, false, ◌&&◌, ◌||◌, not, Option, none, some, List, [], ◌∷◌, ◌++◌, map,
  ◌==◌, if◌then◌else◌,
}

-- What is asked of a Value: its type (the address of its FieldDesc), whether that is a Struct, and
-- to take in another value of the type. V is a Value that is not empty. A clone is the same value.
pub record Values (V : Type 0) : Type 0 where
  pub desc : V → ℕ
  pub is_struct : V → Bool
  pub assign : V → V → V

-- A MonitorSetupOp until it is connected, and then a MonitorControlOp.
pub record Subscriber : Type 0 where
  pub id : ℕ
  pub mpending : Bool
  pub mcontrol : Bool

pub record SharedPv (V : Type 0) : Type 0 where
  pub current : Option V
  pub channels : List ℕ
  pub pending : List ℕ
  pub msubscribers : List Subscriber
  -- the next subscription that a client makes
  pub next_sub : ℕ
  -- whether the callbacks are set
  pub on_first_connect : Bool
  pub on_last_disconnect : Bool
  pub on_put : Bool
  pub on_rpc : Bool

pub data Event (V : Type 0) : Type 0 where
  op_connected : ℕ → V → Event V
  op_failed : ℕ → Event V
  sub_connected : ℕ → V → Event V
  sub_posted : ℕ → V → Event V
  exec_replied : V → Event V
  exec_failed : Event V
  put_called : V → Event V
  rpc_called : Event V
  first_connected : Event V
  last_disconnected : Event V
  channel_closed : ℕ → Event V

abbrev pub is_empty : {A : Type 0} → List A → Bool
is_empty [] = true
is_empty (x ∷ xs) = false

abbrev pub remove : ℕ → List ℕ → List ℕ
remove a [] = []
remove a (x ∷ xs) = if x == a then remove a xs else x ∷ remove a xs

abbrev pub remove_sub : ℕ → List Subscriber → List Subscriber
remove_sub a [] = []
remove_sub a (x ∷ xs) = if x.id == a then remove_sub a xs else x ∷ remove_sub a xs

abbrev pub new_sub : ℕ → Subscriber
new_sub n = record { id = n; mpending = true; mcontrol = false }

module _ {V : Type 0} where
  -- A loop over the subscribers.
  abbrev pub for_each :
      (Subscriber → Subscriber × List (Event V))
      → List Subscriber
      → List Subscriber × List (Event V)
  for_each f [] = ([], [])
  for_each f (s ∷ ss) = let r = f s in let rest = for_each f ss in (r.0 ∷ rest.0, r.1 ++ rest.1)

-- Whether connect() of an operation returns; it throws where the client has gone.
module _ {V : Type 0} (op_connects : ℕ → Bool) where
  abbrev pub connect_op : ℕ → V → List (Event V)
  connect_op conn v = (if op_connects conn then op_connected conn v else op_failed conn) ∷ []

  abbrev pub connect_ops : List ℕ → V → List (Event V)
  connect_ops [] v = []
  connect_ops (c ∷ cs) v = connect_op c v ++ connect_ops cs v

  abbrev pub op_or_pending : SharedPv V → ℕ → Option V → SharedPv V × List (Event V)
  op_or_pending p conn none = (record p { pending = p.pending ++ (conn ∷ []) }, [])
  op_or_pending p conn (some v) = (p, connect_op conn v)

  -- onOp: the type is told when there is one.
  unfoldable pub on_op : SharedPv V → ℕ → SharedPv V × List (Event V)
  on_op p conn = op_or_pending p conn p.current

-- The same for a subscription.
module _ {V : Type 0} (sub_connects : ℕ → Bool) where
  -- `connectSub`. The setup has been moved out of mpending when connect() throws, so that the error
  -- is not delivered.
  abbrev pub connect_sub : V → Subscriber → Subscriber × List (Event V)
  connect_sub v s =
      if s.mpending
      then (
        record s { mpending = false; mcontrol = sub_connects s.id },
        if sub_connects s.id then sub_connected s.id v ∷ sub_posted s.id v ∷ [] else [],
      )
      else (s, [])

  abbrev pub connect_new : Subscriber → Option V → Subscriber × List (Event V)
  connect_new s none = (s, [])
  connect_new s (some v) = connect_sub v s

  unfoldable pub on_subscribe : SharedPv V → SharedPv V × List (Event V)
  on_subscribe p =
      let r = connect_new (new_sub p.next_sub) p.current in
      (record p { msubscribers = p.msubscribers ++ (r.0 ∷ []); next_sub = p.next_sub + 1 }, r.1)

module _ {V : Type 0} where
  unfoldable pub attach : SharedPv V → ℕ → SharedPv V × List (Event V)
  attach p ch = (
    record p { channels = p.channels ++ (ch ∷ []) },
    if is_empty p.channels && p.on_first_connect then first_connected ∷ [] else [],
  )

  -- onClose of a channel.
  unfoldable pub close_channel : SharedPv V → ℕ → SharedPv V × List (Event V)
  close_channel p ch =
      let chs = remove ch p.channels in
      (
        record p { channels = chs },
        if is_empty chs && p.on_last_disconnect then last_disconnected ∷ [] else [],
      )

  -- onClose of an operation, and of a subscription.
  unfoldable pub close_op : SharedPv V → ℕ → SharedPv V
  close_op p conn = record p { pending = remove conn p.pending }

  unfoldable pub close_sub : SharedPv V → ℕ → SharedPv V
  close_sub p id = record p { msubscribers = remove_sub id p.msubscribers }

  abbrev pub got : Option V → List (Event V)
  got none = exec_failed ∷ []
  got (some v) = exec_replied v ∷ []

  -- onGet, onPut and onRPC.
  unfoldable pub do_get : SharedPv V → List (Event V)
  do_get p = got p.current

  unfoldable pub do_put : SharedPv V → V → List (Event V)
  do_put p v = (if p.on_put then put_called v else exec_failed) ∷ []

  unfoldable pub do_rpc : SharedPv V → List (Event V)
  do_rpc p = (if p.on_rpc then rpc_called else exec_failed) ∷ []

  -- close(): the channels are closed after that, and each calls onClose.
  unfoldable pub close : SharedPv V → SharedPv V × List (Event V)
  close p =
      (record p { current = none; msubscribers = []; channels = [] }, map channel_closed p.channels)

  abbrev pub post_sub : V → Subscriber → Subscriber × List (Event V)
  post_sub v s = (s, if s.mcontrol then sub_posted s.id v ∷ [] else [])

-- `none` is an exception.
module _ {V : Type 0} (vs : Values V) where
  unfoldable pub open_pv :
      (ℕ → Bool) → (ℕ → Bool) → SharedPv V → V → Option (SharedPv V × List (Event V))
  open_pv op_connects sub_connects p initial =
      if not (vs.is_struct initial) || not (is_none p.current)
      then none
      else (let r = for_each (connect_sub sub_connects initial) p.msubscribers in
          some (
            record p { current = some initial; pending = []; msubscribers = r.0 },
            r.1 ++ connect_ops op_connects p.pending initial,
          ))

  abbrev pub post_to : SharedPv V → Option V → V → Option (SharedPv V × List (Event V))
  post_to p none v = none
  post_to p (some c) v =
      if vs.desc c == vs.desc v
      then some
          (record p { current = some (vs.assign c v) }, (for_each (post_sub v) p.msubscribers).1)
      else none

  unfoldable pub post : SharedPv V → V → Option (SharedPv V × List (Event V))
  post p v = post_to p p.current v
