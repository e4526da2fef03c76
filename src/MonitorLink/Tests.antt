-- ===== src/MonitorLink/Tests.antt =====
-- A subscription to a Value of two fields: a run, and the theorems at that run.
use pvxs.Prelude.{Bool, ℕ, ◌≡◌, refl, true, false, List, [], ◌∷◌, arith}
use pvxs.ServerMonitor.State.{executing, MonitorOp}
use pvxs.ServerMonitor.Post.{Updates, squash_back}
use pvxs.ServerMonitor.Session.{run}
use pvxs.ClientMonitor.Receive.{handle_message}
use pvxs.ServerMonitor.Reply.{ready, full}
use pvxs.ServerMonitor.Command.{new_op}
use pvxs.ClientMonitor.State.{running, Subscription, pop_entry, tick_ack}
use pvxs.MonitorLink.State.{
  Transport, Pair, Move, feed, work, deliver, take, tick, deliver_ack, move_all,
}
use pvxs.MonitorLink.Steady.{Steady}
use pvxs.MonitorLink.Arrival.{move_all-seen}
use pvxs.MonitorLink.Window.{Balanced, move_all-Balanced}

-- A field with its mark, and a Value of two fields, of which the client asks for the first.
abbrev Field : Type 0
Field = Bool × ℕ

abbrev Two : Type 0
Two = Field × Field

-- A marked field takes the place of the other.
abbrev assign_field : Field → Field → Field
assign_field a (true, x) = (true, x)
assign_field a (false, x) = a

-- A marked field is sent; another one is read as 0.
abbrev send_field : Field → Field
send_field (true, x) = (true, x)
send_field (false, x) = (false, 0)

-- A field of the prototype, and one of the update, after cache_sync.
abbrev sync_field : Field → Field → Field × Field
sync_field (m, y) (true, x) = ((m, x), (true, x))
sync_field (m, y) (false, x) = ((m, y), (false, y))

abbrev assign_two : Two → Two → Two
assign_two a b = (assign_field a.0 b.0, assign_field a.1 b.1)

abbrev two : Updates Two
two = record { assign = assign_two; selected = λ v. v.0.0; same_type = λ v. true }

abbrev send_two : Two → Two
send_two v = (send_field v.0, (false, 0))

abbrev sync_two : Two → Two → Two × Two
sync_two p v = let a = sync_field p.0 v.0 in let b = sync_field p.1 v.1 in ((a.0, b.0), (a.1, b.1))

abbrev wire : Transport Two
wire = record { carried = send_two; cache_sync = sync_two }

assign_field_assoc :
    (a b c : Field) → assign_field (assign_field a b) c ≡ assign_field a (assign_field b c)
assign_field_assoc a b (true, x) = refl
assign_field_assoc a b (false, x) = refl

send_field-assign_field :
    (a b : Field) → send_field (assign_field a b) ≡ assign_field (send_field a) (send_field b)
send_field-assign_field a (true, x) = refl
send_field-assign_field a (false, x) = refl

assign_field-sync_field : (p a v : Field) → assign_field a (sync_field p v).1 ≡ assign_field a v
assign_field-sync_field (m, y) a (true, x) = refl
assign_field-sync_field (m, y) a (false, x) = refl

assign_two_assoc : (a b c : Two) → assign_two (assign_two a b) c ≡ assign_two a (assign_two b c)
assign_two_assoc a b c = rw (assign_field_assoc a.0 b.0 c.0, assign_field_assoc a.1 b.1 c.1) refl

send_two-assign_two : (a b : Two) → send_two (assign_two a b) ≡ assign_two (send_two a) (send_two b)
send_two-assign_two a b = rw (send_field-assign_field a.0 b.0) refl

assign_two-sync_two : (p a v : Two) → assign_two a (sync_two p v).1 ≡ assign_two a v
assign_two-sync_two p a v =
    rw (assign_field-sync_field p.0 a.0 v.0, assign_field-sync_field p.1 a.1 v.1) refl

abbrev nothing_yet : Two
nothing_yet = ((false, 0), (false, 0))

abbrev client : Subscription Two
client = record {
  state = running;
  pipeline = true;
  autostart = true;
  mask_conn = false;
  mask_discon = true;
  queue_size = 2;
  ack_at = 1;
  queue = [];
  window = 2;
  unack = 0;
  n_srv_squash = 0;
  n_cli_squash = 0;
  queue_max = 0;
  need_notify = true;
  ack_pending = false;
}

abbrev server : MonitorOp Two
server = record (new_op true 2 1 2) { state = executing; has_type = true; first = false }

abbrev begun : Pair Two
begun = record {
  server = server;
  to_client = [];
  to_server = [];
  client = client;
  prototype = nothing_yet;
  seen = nothing_yet;
}

-- The third post finds the server's queue full, and the fourth has no field that is asked for.
abbrev exchange : List (Move Two)
exchange =
    feed ((true, 1), (true, 7)) false
    ∷ feed ((true, 2), (false, 5)) false
    ∷ feed ((true, 3), (true, 8)) false
    ∷ work full
    ∷ work ready
    ∷ work ready
    ∷ deliver
    ∷ take
    ∷ deliver
    ∷ take
    ∷ tick
    ∷ deliver_ack
    ∷ feed ((false, 0), (true, 9)) false
    ∷ feed ((true, 4), (false, 0)) false
    ∷ work ready
    ∷ deliver
    ∷ take
    ∷ []

begun-Steady : Steady begun
begun-Steady = (
  (omega arith, omega arith, omega arith, omega arith, omega arith, omega arith, tt),
  (refl, refl),
  tt,
  refl,
)

begun-Balanced : Balanced begun
begun-Balanced = ((refl, refl, tt, refl, omega arith), refl, refl)

move_all-seen_example : (move_all two wire begun exchange).seen ≡ ((true, 4), (false, 0))
unfolding run squash_back handle_message pop_entry tick_ack
move_all-seen_example =
    move_all-seen two wire assign_two_assoc send_two-assign_two assign_two-sync_two begun exchange
      begun-Steady (refl, refl, refl)

move_all-Balanced_example : Balanced (move_all two wire begun exchange)
move_all-Balanced_example = move_all-Balanced two wire begun exchange begun-Steady begun-Balanced
