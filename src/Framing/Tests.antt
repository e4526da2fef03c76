-- ===== src/Framing/Tests.antt =====
-- Runs of the message framing.
use pvxs.Prelude.{
  append-nil, arith, ℕ, ◌≡◌, refl, inr, Bool, true, false, not, some, List, [], ◌∷◌, ◌++◌, ◌==◌,
}
use pvxs.Framing.Conn.{Core, Bev, Conn, open_conn, Handlers, new_core, connect}
use pvxs.Framing.Read.{known, receive}
use pvxs.Framing.Message.{only, Message, frame, stream_bytes, handled}
use pvxs.Framing.Stream.{receive_all, receive_all-receive, receive_returns}
use pvxs.Framing.Deliver.{upper_of, receive_all-handled}
use pvxs.Framing.Send.{send_all, send_all-handled, closed_with, receive_violation}

-- The handlers keep a log; an echo ends the connection, and a closed connection is logged as 0.
abbrev Log : Type 0
Log = List (ℕ × List ℕ)

abbrev logging : Handlers Log
logging = record {
  handle = λ cmd be body u. (u ++ ((cmd, body) ∷ []), not (cmd == 2));
  close = λ u. u ++ ((0, []) ∷ []);
}

abbrev fresh : Bool → Core Log
fresh is_client = new_core is_client false []

-- A GET in three pieces, a PUT, and an unknown command.
abbrev get_put : List Message
get_put =
    record { be = true; cmd = 10; first = 1 ∷ 2 ∷ []; others = (3 ∷ []) ∷ (4 ∷ []) ∷ [] }
    ∷ record { be = false; cmd = 11; first = 5 ∷ []; others = [] }
    ∷ record { be = false; cmd = 99; first = 6 ∷ []; others = [] }
    ∷ []

abbrev two_bodies : List (ℕ × List ℕ)
two_bodies = (10, 1 ∷ 2 ∷ []) ∷ (11, []) ∷ []

abbrev no_output : Bev
no_output = record { input = []; output = []; low = 8; high = 4096 }

get_put-handled : handled logging get_put [] ≡ (10, 1 ∷ 2 ∷ 3 ∷ 4 ∷ []) ∷ (11, 5 ∷ []) ∷ []
unfolding known
get_put-handled = refl

receive_all-receive_example :
    receive_all logging
      (some (connect (fresh false) 4096))
      ((0xca ∷ 2 ∷ []) ∷ (0 ∷ 11 ∷ 1 ∷ 0 ∷ []) ∷ (0 ∷ 0 ∷ 7 ∷ []) ∷ [])
    ≡ receive logging (connect (fresh false) 4096) (0xca ∷ 2 ∷ 0 ∷ 11 ∷ 1 ∷ 0 ∷ 0 ∷ 0 ∷ 7 ∷ [])
receive_all-receive_example =
    receive_all-receive logging (connect (fresh false) 4096) (0xca ∷ 2 ∷ [])
      ((0 ∷ 11 ∷ 1 ∷ 0 ∷ []) ∷ (0 ∷ 0 ∷ 7 ∷ []) ∷ [])

receive_returns_example :
    (k : Conn Log) × (receive logging
        (connect (fresh false) 4096)
        (0xca ∷ 2 ∷ 0 ∷ 11 ∷ 0 ∷ 0 ∷ 0 ∷ 0 ∷ 9 ∷ [])
      ≡ some k)
receive_returns_example =
    receive_returns logging (connect (fresh false) 4096)
      (0xca ∷ 2 ∷ 0 ∷ 11 ∷ 0 ∷ 0 ∷ 0 ∷ 0 ∷ 9 ∷ [])

receive_all-handled_example :
    upper_of
      (receive_all logging (some (connect (fresh true) 4096)) (stream_bytes true get_put ∷ []))
    ≡ some ((10, 1 ∷ 2 ∷ 3 ∷ 4 ∷ []) ∷ (11, 5 ∷ []) ∷ [])
unfolding known
receive_all-handled_example =
    receive_all-handled logging true false 4096 [] get_put (stream_bytes true get_put ∷ [])
      (omega arith, (omega arith, (omega arith, tt)), (omega arith, tt, (omega arith, tt, tt)))
      (append-nil _)

send_all-handled_example :
    upper_of (
      receive_all logging
        (some (connect (fresh true) 4096))
        ((send_all (fresh false) no_output two_bodies).1.output ∷ []))
    ≡ some ((10, 1 ∷ 2 ∷ []) ∷ (11, []) ∷ [])
unfolding known new_core
send_all-handled_example =
    send_all-handled logging (fresh false) no_output 4096 false [] two_bodies
      ((send_all (fresh false) no_output two_bodies).1.output ∷ []) (omega arith, (omega arith, tt))
      refl (append-nil _)

-- A second message starts within a first one.
abbrev within : Core Log
within = record (fresh false) { expect_seg = true; seg_cmd = 10; seg_buf = 1 ∷ [] }

receive_violation_example :
    closed_with
      (receive logging (open_conn within no_output) (frame false true only 11 (2 ∷ []) ++ []))
    ≡ some ((0, []) ∷ [])
unfolding new_core
receive_violation_example =
    receive_violation logging within no_output false true only 11 (2 ∷ []) [] refl (omega arith)
      (inr (refl, refl))
