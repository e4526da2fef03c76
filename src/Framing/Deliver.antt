-- ===== src/Framing/Deliver.antt =====
-- src/conn.cpp: the messages of a stream and the handlers.
use pvxs.Prelude.{
  ℕ, ◌-◌, ◌≤◌, ◌<◌, ◌^◌, ◌≡◌, refl, ◌∙◌, ap, Bool, true, false, Option, none, some, List, [], ◌∷◌,
  ◌++◌, length, length-append, if-rel, arith, append_assoc, append-nil,
}
use pvxs.Wire.Scalar.{wire_bytes}
use pvxs.Wire.ScalarLaws.{length-wire_bytes}
use pvxs.Wire.Header.{header_flags}
use pvxs.Framing.Conn.{Core, Conn, open_conn, no_bev, Handlers, new_core, connect}
use pvxs.Framing.Read.{known, dispatch, segment, next, Step, going, receive}
use pvxs.Framing.Message.{
  Place, only, front, middle, back, place_flags, frame, deliver, concat, back_bytes, cut_bytes,
  AreShort, Message, stream_bytes, IsStream, handled,
}
use pvxs.Framing.Stream.{run, run-step, run_short, receive_all, receive_all-receive}
use pvxs.Framing.Frames.{with_body, started, step-frame, segment_fresh, segment_continued}

module _ {H : Type 0} where
  -- What the handlers have made, where the read returned.
  abbrev pub upper_of : Option (Conn H) → Option H
  upper_of none = none
  upper_of (some (open_conn c b)) = some c.upper
  upper_of (some (no_bev c)) = some c.upper

pub length-frame :
    (srv be : Bool) (p : Place) (cmd : ℕ) (body rest : List ℕ)
    → 8 ≤ length (frame srv be p cmd body ++ rest)
length-frame srv be p cmd body rest =
    let ws : List ℕ = wire_bytes be 4 (length body) in
    omega (
      arith,
      length-append (ws ++ body) rest,
      length-append ws body,
      length-wire_bytes be 4 (length body),
    )

module _ {H : Type 0} (hs : Handlers H) (out : List ℕ) (srv : Bool) where
  -- Between two messages, with the handlers' state.
  abbrev Ready : (Core H → Type 0)
  Ready c = (c.is_client ≡ srv) × (c.expect_seg ≡ false) × (c.seg_buf ≡ [])

  pub run-frame :
      (be : Bool) (p : Place) (cmd : ℕ) (body rest : List ℕ) (c : Core H)
      → c.is_client ≡ srv
      → length body < 2 ^ 32 - 8
      → run hs out c (frame srv be p cmd body ++ rest)
        ≡ next hs
            (run hs out)
            (frame srv be p cmd body ++ rest)
            out
            (segment hs (with_body hs c be body) (header_flags be (place_flags srv p)) cmd rest)
  run-frame be p cmd body rest c side short =
      run-step hs out c (frame srv be p cmd body ++ rest) (length-frame srv be p cmd body rest)
      ∙ ap (next hs (run hs out) (frame srv be p cmd body ++ rest) out)
          (step-frame hs srv be p cmd body rest c side short)

  -- Where a segment is followed by others.
  run-segment :
      (be : Bool) (p : Place) (cmd : ℕ) (body more rest : List ℕ) (c c' : Core H)
      → c.is_client ≡ srv
      → length body < 2 ^ 32 - 8
      → segment hs (with_body hs c be body) (header_flags be (place_flags srv p)) cmd (more ++ rest)
        ≡ going c' (more ++ rest)
      → upper_of (run hs out c ((frame srv be p cmd body ++ more) ++ rest))
        ≡ upper_of (run hs out c' (more ++ rest))
  run-segment be p cmd body more rest c c' side short e =
      ap (λ rx. upper_of (run hs out c rx)) (append_assoc (frame srv be p cmd body) more rest)
      ∙ ap upper_of (run-frame be p cmd body (more ++ rest) c side short)
      ∙ ap (λ s. upper_of (next hs (run hs out) (frame srv be p cmd body ++ (more ++ rest)) out s))
          e

  -- What follows a message, with what it comes to.
  module _ (rest : List ℕ) (k : H → H)
      (after : (c : Core H) → Ready c → upper_of (run hs out c rest) ≡ some (k c.upper)) where
    dispatch-deliver :
        (c : Core H) (rx : List ℕ)
        → c.is_client ≡ srv
        → upper_of (next hs (run hs out) rx out (dispatch hs c rest))
          ≡ some (deliver hs c.seg_cmd c.peer_be c.seg_buf c.upper k)
    unfolding dispatch
    dispatch-deliver c rx side =
        let Same : Step H → H → Type 0 = λ s u. upper_of (next hs (run hs out) rx out s) ≡ some u in
        if-rel Same (known c.seg_cmd)
          (λ _.
            if-rel Same (hs.handle c.seg_cmd c.peer_be c.seg_buf c.upper).1
              (λ _. after _ (side, refl, refl)) (λ _. refl))
          (λ _. after _ (side, refl, refl))

    -- The segment that ends a message.
    run_end :
        (be : Bool) (p : Place) (cmd : ℕ) (body : List ℕ) (c c' : Core H)
        → c.is_client ≡ srv
        → c'.is_client ≡ srv
        → length body < 2 ^ 32 - 8
        → segment hs (with_body hs c be body) (header_flags be (place_flags srv p)) cmd rest
          ≡ dispatch hs c' rest
        → upper_of (run hs out c (frame srv be p cmd body ++ rest))
          ≡ some (deliver hs c'.seg_cmd c'.peer_be c'.seg_buf c'.upper k)
    run_end be p cmd body c c' side side' short e =
        ap upper_of (run-frame be p cmd body rest c side short)
        ∙ ap (λ s. upper_of (next hs (run hs out) (frame srv be p cmd body ++ rest) out s)) e
        ∙ dispatch-deliver c' _ side'

    run-back_bytes :
        (be : Bool) (xs : List (List ℕ)) (x : List ℕ) (c : Core H)
        → c.is_client ≡ srv
        → c.expect_seg ≡ true
        → AreShort (x ∷ xs)
        → upper_of (run hs out c (back_bytes srv be c.seg_cmd x xs ++ rest))
          ≡ some (deliver hs c.seg_cmd be (c.seg_buf ++ concat (x ∷ xs)) c.upper k)
    run-back_bytes be [] x c side more (short, _) =
        let c1 = with_body hs c be x in
        run_end be back c.seg_cmd x c c1 side side short
          (segment_continued hs c1 srv be rest more).1
        ∙ rw (append-nil x) refl
    run-back_bytes be (y ∷ ys) x c side more (short, others) =
        let c1 = with_body hs c be x in
        let bytes = back_bytes srv be c.seg_cmd y ys in
        run-segment be middle c.seg_cmd x bytes rest c c1 side short
          (segment_continued hs c1 srv be (bytes ++ rest) more).0
        ∙ run-back_bytes be ys y c1 side more others
        ∙ rw (append_assoc c.seg_buf x (concat (y ∷ ys))) refl

    run-cut_bytes :
        (be : Bool) (cmd : ℕ) (x : List ℕ) (xs : List (List ℕ)) (c : Core H)
        → Ready c
        → length x < 2 ^ 32 - 8
        → AreShort xs
        → upper_of (run hs out c (cut_bytes srv be cmd x xs ++ rest))
          ≡ some (deliver hs cmd be (x ++ concat xs) c.upper k)
    run-cut_bytes be cmd x [] c (side, fresh, empty) short others =
        let c1 = with_body hs c be x in
        run_end be only cmd x c (started hs c1 cmd) side side short
          (segment_fresh hs c1 srv be cmd rest fresh).0
        ∙ rw (empty, append-nil x) refl
    run-cut_bytes be cmd x (y ∷ ys) c (side, fresh, empty) short others =
        let c1 = with_body hs c be x in
        let bytes = back_bytes srv be cmd y ys in
        run-segment be front cmd x bytes rest c (started hs c1 cmd) side short
          (segment_fresh hs c1 srv be cmd (bytes ++ rest) fresh).1
        ∙ run-back_bytes be ys y (started hs c1 cmd) side refl others
        ∙ rw empty refl

  run-stream_bytes :
      (ms : List Message) (c : Core H)
      → Ready c
      → IsStream ms
      → upper_of (run hs out c (stream_bytes srv ms)) ≡ some (handled hs ms c.upper)
  run-stream_bytes [] c ready short = ap upper_of (run_short hs out c [] (omega arith))
  run-stream_bytes (m ∷ ms) c ready (short, others, shorts) =
      run-cut_bytes (stream_bytes srv ms) (handled hs ms)
        (λ c' ready'. run-stream_bytes ms c' ready' shorts) m.be m.cmd m.first m.others c ready
        short others

length-cut_bytes :
    (srv be : Bool) (cmd : ℕ) (x : List ℕ) (xs : List (List ℕ))
    → 1 ≤ length (cut_bytes srv be cmd x xs)
length-cut_bytes srv be cmd x [] = omega arith
length-cut_bytes srv be cmd x (y ∷ ys) = omega arith

-- A stream of messages from the other side, each in one segment or cut into a first, middle and
-- last ones of less than 2^32 - 8 bytes, in either byte order, and cut into reads in any way,
-- gives a new connection's handlers just the messages with their segments joined, once each and in
-- order, until a handler gives the connection up.
pub receive_all-handled :
    {H : Type 0} (hs : Handlers H) (srv send_be : Bool) (size : ℕ) (u : H) (ms : List Message)
    (chunks : List (List ℕ))
    → IsStream ms
    → concat chunks ≡ stream_bytes srv ms
    → upper_of (receive_all hs (some (connect (new_core srv send_be u) size)) chunks)
      ≡ some (handled hs ms u)
unfolding receive connect new_core
receive_all-handled hs srv send_be size u [] [] short e = refl
receive_all-handled hs srv send_be size u (m ∷ ms) [] short e = absurd (
    omega (
      arith,
      length-cut_bytes srv m.be m.cmd m.first m.others,
      length-append (cut_bytes srv m.be m.cmd m.first m.others) (stream_bytes srv ms),
      ap length e,
    ))
receive_all-handled hs srv send_be size u ms (x ∷ xs) short e =
    rw (receive_all-receive hs (connect (new_core srv send_be u) size) x xs, e)
      (run-stream_bytes hs [] srv ms _ (refl, refl, refl) short)
