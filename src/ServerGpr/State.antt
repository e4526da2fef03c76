-- ===== src/ServerGpr/State.antt =====
-- src/serverget.cpp: the state of a ServerGPR, `cleanup` and `doReply`.
-- A type is known by the address of its FieldDesc; V is what else a Value holds, and K is a mask.
use pvxs.Prelude.{
  ℕ, Bool, true, false, ◌&&◌, ◌||◌, not, Option, none, some, List, [], ◌∷◌, ◌++◌, ◌==◌,
  if◌then◌else◌,
}
use pvxs.Wire.Header.{has}
use pvxs.ServerMonitor.State.{OpState, creating, idle, executing, dead, is_executing, is_dead}

pub data Cmd : Type 0 where
  get put rpc : Cmd

abbrev pub is_rpc : Cmd → Bool
is_rpc rpc = true
is_rpc _ = false

abbrev pub is_get : Cmd → Bool
is_get get = true
is_get _ = false

abbrev pub is_put : Cmd → Bool
is_put put = true
is_put _ = false

pub record Value (V : Type 0) : Type 0 where
  pub desc : ℕ
  pub content : V

pub record ServerGpr (K : Type 0) : Type 0 where
  pub state : OpState
  pub cmd : Cmd
  pub subcmd : ℕ
  pub last_request : Bool
  pub type : Option ℕ
  pub mask : Option K
  -- whether onPut, onGet, onCancel and onClose are set
  pub on_put : Bool
  pub on_get : Bool
  pub on_cancel : Bool
  pub on_close : Bool

-- What follows the status in a reply.
pub data Body (V K : Type 0) : Type 0 where
  failure : Body V K
  described : Option ℕ → Body V K
  masked : Value V → Option K → Body V K
  whole : Option (Value V) → Body V K
  nothing : Body V K

-- What a call does outside the operation. A reply is its subcommand and its body.
pub data Event (V K : Type 0) : Type 0 where
  replied : ℕ → Body V K → Event V K
  get_called : Event V K
  put_called : Value V → Event V K
  rpc_called : Option (Value V) → Event V K
  cancel_called : Event V K
  close_dispatched : Event V K

abbrev pub get_flag : ℕ
get_flag = 0x40

-- GET, and PUT with the Get flag.
abbrev pub reads : Cmd → ℕ → Bool
reads cmd subcmd = is_get cmd || (is_put cmd && has subcmd get_flag)

abbrev pub same_type : Option ℕ → ℕ → Bool
same_type none d = false
same_type (some t) d = d == t

module _ {V K : Type 0} where
  -- `ServerOp::cleanup` (src/serverconn.cpp), and then onPut and onGet are released.
  unfoldable pub cleanup : ServerGpr K → ServerGpr K × List (Event V K)
  cleanup m =
      let released = record m { on_put = false; on_get = false } in
      if is_dead m.state then (released, []) else (
        record released { state = dead; on_cancel = false; on_close = false },
        (if m.on_cancel && is_executing m.state then cancel_called ∷ [] else [])
            ++ (if m.on_close then close_dispatched ∷ [] else []),
      )

  -- The combinations of command and value that a reply may have.
  abbrev pub is_allowed : ServerGpr K → Option (Value V) → Bool
  is_allowed m none = not (reads m.cmd m.subcmd)
  is_allowed m (some v) =
      if reads m.cmd m.subcmd then same_type m.type v.desc else not (is_put m.cmd)

  abbrev pub masked_body : Option (Value V) → Option K → Body V K
  masked_body none k = nothing
  masked_body (some v) k = masked v k

  abbrev pub exec_body : ServerGpr K → Option (Value V) → Body V K
  exec_body m v =
      if reads m.cmd m.subcmd
      then masked_body v m.mask
      else (if is_rpc m.cmd then whole v else nothing)

  abbrev pub init_body : ServerGpr K → Body V K
  init_body m = if is_rpc m.cmd then nothing else described m.type

  -- A reply that ends the operation: the callbacks are before the message is queued.
  unfoldable pub reply_last : ServerGpr K → Body V K → ServerGpr K × List (Event V K)
  unfolding cleanup
  reply_last m body = let c = cleanup m in (c.0, c.1 ++ (replied m.subcmd body ∷ []))

  abbrev pub reply_idle : ServerGpr K → Body V K → ServerGpr K × List (Event V K)
  reply_idle m body = (record m { state = idle }, replied m.subcmd body ∷ [])

  unfoldable pub reply_executing :
      ServerGpr K → Option (Value V) → Option (ServerGpr K × List (Event V K))
  unfolding reply_last
  reply_executing m v =
      if is_allowed m v
      then some
          (if m.last_request then reply_last m (exec_body m v) else reply_idle m (exec_body m v))
      else none

  abbrev pub reply_in :
      OpState → ServerGpr K → Option (Value V) → Bool → Option (ServerGpr K × List (Event V K))
  reply_in creating m v failed =
      some (if failed then reply_last m failure else reply_idle m (init_body m))
  reply_in executing m v failed =
      if failed then some (reply_idle m failure) else reply_executing m v
  reply_in idle m v failed = some (m, [])
  reply_in dead m v failed = some (m, [])

  -- With a channel and a connection or not, a value, and whether there is a message of an error.
  -- `none` is an exception.
  unfoldable pub do_reply :
      Bool → ServerGpr K → Option (Value V) → Bool → Option (ServerGpr K × List (Event V K))
  unfolding reply_executing reply_last
  do_reply linked m v failed = if linked then reply_in m.state m v failed else some (m, [])
