-- ===== src/MonitorLink/State.antt =====
-- src/servermon.cpp and src/clientmon.cpp: an operation of the server, the subscription of the client
-- that it serves, and the messages on their way between them, the oldest first. The connection keeps
-- their order and loses none.
use pvxs.Prelude.{
  if◌then◌else◌, ℕ, Bool, true, false, Option, none, some, List, [], ◌∷◌, ◌++◌, ◌==◌,
}
use pvxs.ServerMonitor.State.{MonitorOp, Event, Body, init_error, update, no_body}
use pvxs.ServerMonitor.Post.{Updates}
use pvxs.ServerMonitor.Reply.{Link, subcmd_init, subcmd_destroy}
use pvxs.ServerMonitor.Command.{Command}
use pvxs.ServerMonitor.Session.{run, post, wake, command}
use pvxs.ServerMonitor.Flow.{replies}
use pvxs.ClientMonitor.State.{
  SubState, Subscription, Action, send_ack, Popped, popped, pop_entry, tick_ack,
}
use pvxs.ClientMonitor.Receive.{Message, expects, handle_message}
use pvxs.ClientMonitor.Session.{or_dropped}

-- What becomes of an update between the two: what `to_wire_valid` writes of it under pvMask, as
-- `from_wire_valid` reads it into a Value with nothing marked; and `cache_sync` of the prototype and
-- what was read, which changes both.
pub record Transport (V : Type 0) : Type 0 where
  pub carried : V → V
  pub cache_sync : V → V → V × V

pub record Pair (V : Type 0) : Type 0 where
  pub server : MonitorOp V
  pub to_client : List (ℕ × Body V)
  pub to_server : List ℕ
  pub client : Subscription V
  -- of the RequestInfo that the client's connection keeps for it
  pub prototype : V
  -- what the user has: each update that was popped, taken into the one before
  pub seen : V

-- A post or a post by force, the server's worker, an update that comes to the client, the user's pop,
-- the timer for acks, and an ack that comes to the server.
pub data Move (V : Type 0) : Type 0 where
  feed : V → Bool → Move V
  work : Link → Move V
  deliver : Move V
  take : Move V
  tick : Move V
  deliver_ack : Move V

-- The subcommand 0x80, with its count.
abbrev pub ack_command : ℕ → Command
ack_command n = record { ack = true; start_stop = false; start = false; destroy = false; nack = n }

-- The acks that a call sends.
abbrev pub acks : List Action → List ℕ
acks [] = []
acks (send_ack n ∷ a) = n ∷ acks a
acks (_ ∷ a) = acks a

module _ {V : Type 0} where
  -- Whether the status is a success, and whether there is what is to be decoded.
  abbrev pub told_success : Body V → Bool
  told_success init_error = false
  told_success _ = true

  abbrev pub told_good : Body V → Bool
  told_good no_body = false
  told_good _ = true

module _ {V : Type 0} (wire : Transport V) where
  -- The update as the client has it, once it is read and synced with the prototype.
  abbrev pub synced : V → V → V
  synced p v = (wire.cache_sync p (wire.carried v)).1

  -- The prototype and the update, where there is one.
  abbrev pub told_update : V → Body V → V × Option V
  told_update p (update v) = ((wire.cache_sync p (wire.carried v)).0, some (synced p v))
  told_update p _ = (p, none)

  -- The server's message as the client decodes it; a server never tells of updates it squashed, and
  -- the onInit does not throw.
  abbrev pub decoded : V → ℕ × Body V → Message V
  decoded p (k, b) = record {
    good = told_good b;
    init = k == subcmd_init;
    final = k == subcmd_destroy;
    success = told_success b;
    payload = (told_update p b).1;
    serv_squash = false;
    init_throws = false;
  }

  -- The prototype after a message; one that the state does not expect is not decoded.
  abbrev pub prototype_after : SubState → V → ℕ × Body V → V
  prototype_after st p (k, b) = if expects st (k == subcmd_init) then (told_update p b).0 else p

module _ {V : Type 0} (u : Updates V) (wire : Transport V) where
  abbrev pub served : Pair V → MonitorOp V × List (Event V) → Pair V
  served s r = record s { server = r.0; to_client = s.to_client ++ replies r.1 }

  abbrev pub used : Pair V → Subscription V × List Action → Pair V
  used s r = record s { client = r.0; to_server = s.to_server ++ acks r.1 }

  abbrev pub delivered : Pair V → List (ℕ × Body V) → Pair V
  delivered s [] = s
  delivered s (b ∷ w) =
      let p = prototype_after wire s.client.state s.prototype b in
      used (record s { to_client = w; prototype = p })
        (or_dropped u.assign s.client
          (handle_message u.assign s.client (decoded wire s.prototype b)))

  abbrev pub acked : Pair V → List ℕ → Pair V
  acked s [] = s
  acked s (n ∷ w) = served (record s { to_server = w }) (run u s.server (command (ack_command n)))

  abbrev pub view : V → Popped V → V
  view a (popped v) = u.assign a v
  view a _ = a

  abbrev pub popped_off : Pair V → Subscription V × List Action × Popped V → Pair V
  popped_off s r = record (used s (r.0, r.1)) { seen = view s.seen r.2 }

  abbrev pub move : Pair V → Move V → Pair V
  move s (feed v force) = served s (run u s.server (post (some v) false force))
  move s (work l) = served s (run u s.server (wake l))
  move s deliver = delivered s s.to_client
  move s take = popped_off s (pop_entry s.client true)
  move s tick = used s (tick_ack s.client)
  move s deliver_ack = acked s s.to_server

  abbrev pub move_all : Pair V → List (Move V) → Pair V
  move_all s [] = s
  move_all s (a ∷ rest) = move_all (move s a) rest
