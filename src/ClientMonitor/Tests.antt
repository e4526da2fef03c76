-- ===== src/ClientMonitor/Tests.antt =====
-- A subscription to numbers: runs, and the theorems at such runs.
use pvxs.Prelude.{ℕ, ◌≡◌, refl, true, false, none, some, List, [], ◌∷◌}
use pvxs.ClientMonitor.State.{
  connecting, running, Entry, connected, Subscription, send_init, send_start, send_ack,
  schedule_ack, notify,
}
use pvxs.ClientMonitor.Receive.{Message}
use pvxs.ClientMonitor.Session.{Call, create, tick, pop, pop_many, receive, run, run_all}
use pvxs.ClientMonitor.Notify.{Told}
use pvxs.ClientMonitor.Wakeups.{run_all-Told}
use pvxs.ClientMonitor.Credit.{update_message, acked, pop-over_acks}

abbrev newest : ℕ → ℕ → ℕ
newest a b = b

abbrev fresh : Subscription ℕ
fresh = record {
  state = connecting;
  pipeline = true;
  autostart = true;
  mask_conn = false;
  mask_discon = true;
  queue_size = 4;
  ack_at = 2;
  queue = [];
  window = 0;
  unack = 0;
  n_srv_squash = 0;
  n_cli_squash = 0;
  queue_max = 0;
  need_notify = true;
  ack_pending = false;
}

abbrev open_reply : Message ℕ
open_reply = record {
  good = true;
  init = true;
  final = false;
  success = true;
  payload = none;
  serv_squash = false;
  init_throws = false;
}

abbrev life : List (Call ℕ)
life =
    create
    ∷ receive open_reply
    ∷ receive (update_message 5 false)
    ∷ pop_many 3
    ∷ receive (update_message 6 false)
    ∷ pop_many 3
    ∷ tick
    ∷ []

-- The Connected event and two updates are popped, and three are acknowledged.
life_actions :
    (run_all newest fresh life).1
    ≡ send_init (some 4) ∷ notify ∷ send_start ∷ schedule_ack ∷ send_ack 3 ∷ []
unfolding run
life_actions = refl

abbrev busy : List (Entry ℕ) → Subscription ℕ
busy q = record fresh { state = running; queue = q; window = 2; need_notify = false }

run_all-Told_example : Told fresh (run_all newest fresh life)
run_all-Told_example = run_all-Told newest fresh life (λ t. refl)

pop-over_acks_example : acked (run_all newest (busy (connected ∷ [])) (pop ∷ tick ∷ [])).1 ≡ 1
pop-over_acks_example = pop-over_acks newest (busy (connected ∷ [])) [] refl refl refl refl
