-- ===== src/ServerMonitor/Tests.antt =====
-- A subscription of numbers, where the newest update takes the place of an older one: runs, and the
-- theorems at such runs.
use pvxs.Prelude.{
  ℕ, ◌≡◌, refl, true, false, true≢false, sym, Option, none, some, List, [], ◌∷◌, map, arith,
}
use pvxs.ServerMonitor.State.{executing, MonitorOp, Body, update, finish}
use pvxs.ServerMonitor.Post.{Updates, do_post}
use pvxs.ServerMonitor.Reply.{ready, subcmd_destroy}
use pvxs.ServerMonitor.Command.{Command, Options, count, handle_init, new_op}
use pvxs.ServerMonitor.Session.{
  Call, connect, post, command, wake, set_callback, start_callback, run, run_all,
}
use pvxs.ServerMonitor.Wakeup.{Awake, Rouses}
use pvxs.ServerMonitor.Liveness.{AllQuiet, Quiet, run_all-Awake}
use pvxs.ServerMonitor.Invariant.{Valid}
use pvxs.ServerMonitor.Lifetime.{Agreed, handle_init-Agreed, run_all-Valid}
use pvxs.ServerMonitor.Flow.{replies}
use pvxs.ServerMonitor.Delivery.{run_all-drains, wakes, run_all-finishes}
use pvxs.ServerMonitor.Queue.{Bounded, Takes, do_post-Bounded, do_post-Takes}

abbrev newest : Updates ℕ
newest = record { assign = λ a b. b; selected = λ v. true; same_type = λ v. true }

abbrev asked : Options
asked = record { pipeline = some (some true); queue_size = some (some 3); ack_any = count 0 }

-- A pipelined operation with a queue of 3, and a window of 2.
abbrev fresh : MonitorOp ℕ
fresh = new_op true 3 1 2

abbrev running : List (Option ℕ) → ℕ → MonitorOp ℕ
running q w = record fresh {
  state = executing;
  has_type = true;
  first = false;
  queue = q;
  window = w;
}

abbrev three : List (Option ℕ)
three = some 5 ∷ some 6 ∷ some 7 ∷ []

abbrev start : Command
start = record { ack = false; start_stop = true; start = true; destroy = false; nack = 0 }

abbrev ack_two : Command
ack_two = record { ack = true; start_stop = false; start = false; destroy = false; nack = 2 }

abbrev life : List (Call ℕ)
life =
    connect ready
    ∷ set_callback start_callback true
    ∷ post (some 5) false false
    ∷ command start
    ∷ post (some 6) false false
    ∷ wake ready
    ∷ post none false false
    ∷ wake ready
    ∷ wake ready
    ∷ []

running-Valid : Valid (running three 2)
running-Valid = (omega arith, omega arith, omega arith, omega arith, omega arith, omega arith, tt)

fresh-Valid : Valid fresh
fresh-Valid = (omega arith, omega arith, omega arith, omega arith, omega arith, omega arith, tt)

-- A whole subscription: the reply to INIT, two updates, and the end.
life-replies :
    map (λ (r : ℕ × Body ℕ). r.0) (replies (run_all newest fresh life).1) ≡ 8 ∷ 0 ∷ 0 ∷ 16 ∷ []
unfolding run
life-replies = refl

handle_init-Agreed_example : Agreed ℕ true (some (some 3)) (count 0) 2 (handle_init asked 2)
handle_init-Agreed_example = handle_init-Agreed ℕ asked 2 (omega arith)

run_all-Valid_example : Valid (run_all newest fresh life).0
run_all-Valid_example = run_all-Valid newest fresh life fresh-Valid

life-AllQuiet : AllQuiet newest fresh life
unfolding AllQuiet Quiet Rouses
life-AllQuiet = (tt, (tt, (tt, (refl, (tt, (tt, (tt, (tt, (tt, tt)))))))))

fresh-Awake : Awake fresh
unfolding Awake
fresh-Awake = λ c. absurd (true≢false (sym c))

run_all-Awake_example : Awake (run_all newest fresh life).0
run_all-Awake_example = run_all-Awake newest fresh life life-AllQuiet fresh-Awake

run_all-drains_example :
    (replies (run_all newest (running three 4) (wakes newest 3)).1
      ≡ (0, update 5) ∷ (0, update 6) ∷ (0, update 7) ∷ [])
    × ((run_all newest (running three 4) (wakes newest 3)).0.queue ≡ [])
run_all-drains_example =
    run_all-drains newest (5 ∷ 6 ∷ 7 ∷ []) (running three 4) refl refl (λ p. omega arith)

run_all-finishes_example :
    replies
      (run_all newest (record (running (none ∷ []) 0) { finished = true }) (wake ready ∷ life)).1
    ≡ (subcmd_destroy, finish) ∷ []
run_all-finishes_example =
    run_all-finishes newest (record (running (none ∷ []) 0) { finished = true }) [] life refl refl
      refl

do_post-Bounded_example :
    Bounded newest (running three 2) (do_post newest (running three 2) (some 8) false false)
do_post-Bounded_example = do_post-Bounded newest (running three 2) (some 8) false (omega arith)

do_post-Takes_example :
    Takes newest (running three 2) 0 8 (do_post newest (running three 2) (some 8) false false)
do_post-Takes_example =
    do_post-Takes newest (running three 2) 0 8 false (λ a b c. refl) running-Valid refl refl refl
