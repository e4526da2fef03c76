-- ===== src/SharedPv/Session.antt =====
-- src/sharedpv.cpp: the calls that a SharedPV takes, from its owner and from clients.
use pvxs.Prelude.{ℕ, Bool, Option, none, some, List, [], ◌∷◌, ◌++◌}
use pvxs.SharedPv.State.{
  Values, SharedPv, Event, on_op, on_subscribe, attach, close_channel, close_op, close_sub, do_get,
  do_put, do_rpc, close, open_pv, post,
}

pub data Call (V : Type 0) : Type 0 where
  opens : V → Call V
  closes : Call V
  posts : V → Call V
  attaches : ℕ → Call V
  channel_closes : ℕ → Call V
  op_arrives : ℕ → Call V
  op_closes : ℕ → Call V
  subscribes : Call V
  sub_closes : ℕ → Call V
  gets : Call V
  puts : V → Call V
  calls : Call V

-- As built, with the callbacks that are set.
abbrev pub new_pv : {V : Type 0} → Bool → Bool → Bool → Bool → SharedPv V
new_pv on_first on_last on_put on_rpc = record {
  current = none;
  channels = [];
  pending = [];
  msubscribers = [];
  next_sub = 0;
  on_first_connect = on_first;
  on_last_disconnect = on_last;
  on_put = on_put;
  on_rpc = on_rpc;
}

module _ {V : Type 0} (vs : Values V) (op_connects sub_connects : ℕ → Bool) where
  -- A call that throws changes nothing.
  abbrev pub or_same :
      SharedPv V → Option (SharedPv V × List (Event V)) → SharedPv V × List (Event V)
  or_same p none = (p, [])
  or_same p (some r) = r

  unfoldable pub run : SharedPv V → Call V → SharedPv V × List (Event V)
  unfolding on_op on_subscribe attach close_channel close_op close_sub do_get do_put do_rpc close
      open_pv post
  run p (opens v) = or_same p (open_pv vs op_connects sub_connects p v)
  run p closes = close p
  run p (posts v) = or_same p (post vs p v)
  run p (attaches ch) = attach p ch
  run p (channel_closes ch) = close_channel p ch
  run p (op_arrives c) = on_op op_connects p c
  run p (op_closes c) = (close_op p c, [])
  run p subscribes = on_subscribe sub_connects p
  run p (sub_closes n) = (close_sub p n, [])
  run p gets = (p, do_get p)
  run p (puts v) = (p, do_put p v)
  run p calls = (p, do_rpc p)

  abbrev pub run_all : SharedPv V → List (Call V) → SharedPv V × List (Event V)
  run_all p [] = (p, [])
  run_all p (c ∷ cs) = let r = run p c in let rest = run_all r.0 cs in (rest.0, r.1 ++ rest.1)
