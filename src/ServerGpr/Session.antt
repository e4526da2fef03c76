-- ===== src/ServerGpr/Session.antt =====
-- src/serverget.cpp: ServerGPRConnect, ServerGPRExec and `ServerConn::handle_GPR`, and the calls that
-- an operation takes in its life, each on the TCP worker or from the PV. The server lives.
use pvxs.Prelude.{
  ℕ, Bool, true, false, ◌&&◌, ◌||◌, not, Option, none, some, List, [], ◌∷◌, ◌++◌, if◌then◌else◌,
}
use pvxs.Wire.Header.{has}
use pvxs.ServerMonitor.State.{OpState, creating, idle, executing, is_executing, is_dead}
use pvxs.ServerGpr.State.{
  Cmd, is_rpc, is_get, is_put, Value, ServerGpr, Event, get_called, put_called, rpc_called,
  cancel_called, get_flag, cleanup, do_reply,
}

abbrev pub is_creating : OpState → Bool
is_creating creating = true
is_creating _ = false

abbrev pub is_idle : OpState → Bool
is_idle idle = true
is_idle _ = false

abbrev pub has_type : Option ℕ → Bool
has_type none = false
has_type (some t) = true

-- What is dispatched to the TCP worker: by connect(), by error() of the setup, and by reply() and
-- error() of an execution.
pub data Job (V : Type 0) : Type 0 where
  connect_job : Option ℕ → Job V
  error_job : Job V
  reply_job : Option (Value V) → Bool → Job V

-- The operation, the work that waits for the worker, and the ServerGPRConnect, where the PV has it.
pub record Session (V K : Type 0) : Type 0 where
  pub op : ServerGpr K
  pub jobs : List (Job V)
  pub held : Bool
  pub did_connect : Bool

-- An EXEC message: its command and subcommand, whether it could be read, the value in it, whether
-- the channel has onRPC, and whether the callback throws and leaves the ServerGPRExec.
pub record Exec (V : Type 0) : Type 0 where
  pub cmd : Cmd
  pub subcmd : ℕ
  pub good : Bool
  pub val : Option (Value V)
  pub on_rpc : Bool
  pub throws : Bool

pub data Call (V : Type 0) : Type 0 where
  connect : Option ℕ → Call V
  setup_error : Bool → Call V
  drop_setup : Call V
  set_on_put : Bool → Call V
  set_on_get : Bool → Call V
  set_on_close : Bool → Call V
  set_on_cancel : Bool → Call V
  exec : Exec V → Call V
  reply : Option (Value V) → Call V
  error : Bool → Call V
  work : Bool → Call V
  cancel : Call V
  destroy : Call V

pub data Outcome (A : Type 0) : Type 0 where
  disconnected : Outcome A
  ignored : Outcome A
  handled : A → Outcome A

abbrev pub new_op : {K : Type 0} → Cmd → ℕ → ServerGpr K
new_op cmd subcmd = record {
  state = creating;
  cmd = cmd;
  subcmd = subcmd;
  last_request = false;
  type = none;
  mask = none;
  on_put = false;
  on_get = false;
  on_cancel = false;
  on_close = false;
}

-- Neither GET nor the Get flag.
abbrev pub is_put_exec : {V : Type 0} → Exec V → Bool
is_put_exec e = not (is_get e.cmd) && not (has e.subcmd get_flag)

module _ {V K : Type 0} where
  -- The INIT: whether the message could be read, its channel is there and the IOID is new, and
  -- whether the channel has onOp. For an RPC, connect() is called and the setup goes; with no onOp,
  -- error() is.
  unfoldable pub handle_init : Bool → Bool → Bool → Cmd → ℕ → Outcome (Session V K)
  handle_init good valid on_op cmd subcmd =
      if not good || not valid
      then disconnected
      else handled (record {
        op = new_op cmd subcmd;
        jobs =
            if is_rpc cmd
            then connect_job none ∷ error_job ∷ []
            else (if on_op then [] else error_job ∷ error_job ∷ []);
        held = not (is_rpc cmd) && on_op;
        did_connect = is_rpc cmd;
      })

  abbrev pub not_implemented : List (Event V K) × List (Job V)
  not_implemented = ([], reply_job none true ∷ [])

  abbrev pub called : Exec V → Event V K → List (Event V K) × List (Job V)
  called e ev = (ev ∷ [], if e.throws then reply_job none true ∷ [] else [])

  abbrev pub called_put : Exec V → Option (Value V) → List (Event V K) × List (Job V)
  called_put e none = ([], [])
  called_put e (some v) = called e (put_called v)

  -- The callback that is chosen.
  unfoldable pub execute : ServerGpr K → Exec V → List (Event V K) × List (Job V)
  execute m e =
      if is_rpc e.cmd && is_put_exec e
      then (if e.on_rpc then called e (rpc_called e.val) else not_implemented)
      else (if is_put e.cmd && is_put_exec e
          then (if m.on_put then called_put e e.val else not_implemented)
          else (if not (is_rpc e.cmd) && not (is_put_exec e)
              then (if m.on_get then called e get_called else not_implemented)
              else ([], [])))

  abbrev pub begin_exec : ServerGpr K → Exec V → ServerGpr K
  begin_exec m e = record m {
    last_request = m.last_request || has e.subcmd 0x10;
    subcmd = e.subcmd;
    state = executing;
  }

  -- The message after INIT, on an operation that was found for it. In another state than Idle it
  -- is logged only.
  unfoldable pub handle_exec : Session V K → Exec V → Outcome (Session V K × List (Event V K))
  unfolding execute
  handle_exec s e =
      let m = s.op in
      if is_dead m.state
      then ignored
      else (if is_creating m.state || (not (is_rpc e.cmd) && not (has_type m.type)) || not e.good
          then disconnected
          else (if is_idle m.state
              then (let r = execute m e in
                  handled (record s { op = begin_exec m e; jobs = s.jobs ++ r.1 }, r.0))
              else handled (s, [])))

  abbrev pub or_same :
      ServerGpr K → Option (ServerGpr K × List (Event V K)) → ServerGpr K × List (Event V K)
  or_same m none = (m, [])
  or_same m (some r) = r

  abbrev pub reply_op :
      Bool → ServerGpr K → Option (Value V) → Bool → ServerGpr K × List (Event V K)
  reply_op linked m v failed = or_same m (do_reply linked m v failed)

  abbrev pub add_job : Session V K → Job V → Session V K × List (Event V K)
  add_job s j = (record s { jobs = s.jobs ++ (j ∷ []) }, [])

  -- connect(): an exception where there is no prototype, or at a second call.
  unfoldable pub connect_setup : Session V K → Option ℕ → Session V K × List (Event V K)
  connect_setup s t =
      if (not (has_type t) && not (is_rpc s.op.cmd)) || s.did_connect
      then (s, [])
      else add_job (record s { did_connect = true }) (connect_job t)

  unfoldable pub cancel_request : ServerGpr K → ServerGpr K × List (Event V K)
  cancel_request m =
      if is_executing m.state
      then (record m { state = idle }, if m.on_cancel then cancel_called ∷ [] else [])
      else (m, [])

-- request2mask gives a mask, or throws.
module _ {V K : Type 0} (request2mask : ℕ → Option K) where
  abbrev pub connect_mask : Bool → ServerGpr K → Option K → ServerGpr K × List (Event V K)
  connect_mask linked m none = reply_op linked m none true
  connect_mask linked m (some k) = reply_op linked (record m { mask = some k }) none false

  abbrev pub connect_type : Bool → ServerGpr K → Option ℕ → ServerGpr K × List (Event V K)
  connect_type linked m none = reply_op linked m none false
  connect_type linked m (some t) = connect_mask linked (record m { type = some t }) (request2mask t)

  unfoldable pub run_job : Bool → ServerGpr K → Job V → ServerGpr K × List (Event V K)
  unfolding do_reply
  run_job linked m (connect_job t) =
      if not linked || not (is_creating m.state) || has_type m.type
      then (m, [])
      else connect_type linked m t
  run_job linked m error_job = if is_creating m.state then reply_op linked m none true else (m, [])
  run_job linked m (reply_job v failed) = reply_op linked m v failed

  -- The worker takes the job at the front.
  unfoldable pub run_work : Bool → Session V K → List (Job V) → Session V K × List (Event V K)
  unfolding run_job
  run_work linked s [] = (s, [])
  run_work linked s (j ∷ js) =
      let r = run_job linked s.op j in (record s { op = r.0; jobs = js }, r.1)

  abbrev pub after_exec :
      Session V K → Outcome (Session V K × List (Event V K)) → Session V K × List (Event V K)
  after_exec s (handled r) = r
  after_exec s _ = (s, [])

  abbrev pub on_op : Session V K → ServerGpr K × List (Event V K) → Session V K × List (Event V K)
  on_op s r = (record s { op = r.0 }, r.1)

  unfoldable pub run : Session V K → Call V → Session V K × List (Event V K)
  unfolding handle_exec connect_setup run_work cancel_request cleanup
  run s (connect t) = if s.held then connect_setup s t else (s, [])
  run s (setup_error has_msg) = if s.held && has_msg then add_job s error_job else (s, [])
  run s drop_setup = if s.held then add_job (record s { held = false }) error_job else (s, [])
  run s (set_on_put b) = (record s { op = record s.op { on_put = b } }, [])
  run s (set_on_get b) = (record s { op = record s.op { on_get = b } }, [])
  run s (set_on_close b) =
      if is_dead s.op.state then (s, []) else (record s { op = record s.op { on_close = b } }, [])
  run s (set_on_cancel b) = (record s { op = record s.op { on_cancel = b } }, [])
  run s (exec e) = after_exec s (handle_exec s e)
  run s (reply v) = add_job s (reply_job v false)
  run s (error has_msg) = if has_msg then add_job s (reply_job none true) else (s, [])
  run s (work linked) = run_work linked s s.jobs
  run s cancel = on_op s (cancel_request s.op)
  run s destroy = on_op s (cleanup s.op)

  abbrev pub run_all : Session V K → List (Call V) → Session V K × List (Event V K)
  run_all s [] = (s, [])
  run_all s (c ∷ cs) = let r = run s c in let rest = run_all r.0 cs in (rest.0, r.1 ++ rest.1)
