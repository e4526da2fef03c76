-- ===== src/Framing/Send.antt =====
-- src/conn.cpp: what one ConnBase sends, at the ConnBase of its peer; and segments out of place.
use mathlib.Core.Bool.{or-true}
use pvxs.Prelude.{
  none, ℕ, ◌-◌, ◌<◌, ◌^◌, ◌%◌, ◌≡◌, ◌⊎◌, inl, inr, refl, sym, ◌∙◌, Bool, true, false, not, xor,
  ◌==◌, Option, some, List, [], ◌∷◌, ◌++◌, length, append_assoc, append-nil, arith, if◌then◌else◌,
}
use pvxs.Wire.Buffer.{vector_out}
use pvxs.Wire.Header.{header_flags, has}
use pvxs.Wire.Header.Flags
use pvxs.Wire.HeaderLaws.{header_bytes, to_wire_header-Writes}
use pvxs.Framing.Conn.{
  Core, Bev, Conn, open_conn, no_bev, Handlers, new_core, connect, enqueue_tx_body, tx_header,
}
use pvxs.Framing.Read.{receive, segment, dropped, step, bad_header}
use pvxs.Framing.Message.{
  Place, only, front, middle, back, place_flags, frame, Message, concat, stream_bytes, IsStream,
  handled,
}
use pvxs.Framing.Stream.{receive_all, run, run-step}
use pvxs.Framing.Frames.{continues, frame_flags, with_body}
use pvxs.Framing.Deliver.{upper_of, receive_all-handled, run-frame, length-frame}

-- Messages sent one after the other, each a command and a body.
module _ {G : Type 0} where
  abbrev pub send_all : Core G → Bev → List (ℕ × List ℕ) → Core G × Bev
  send_all c b [] = (c, b)
  send_all c b (m ∷ ms) = let r = enqueue_tx_body c b m.0 m.1 in send_all r.0 r.1 ms

abbrev pub unsegmented : Bool → List (ℕ × List ℕ) → List Message
unsegmented be [] = []
unsegmented be (m ∷ ms) =
    record { be = be; cmd = m.0; first = m.1; others = [] } ∷ unsegmented be ms

abbrev pub AreBodies : List (ℕ × List ℕ) → Type 0
AreBodies [] = Unit
AreBodies (m ∷ ms) = (length m.1 < 2 ^ 32 - 8) × AreBodies ms

unsegmented-IsStream :
    (be : Bool) (ms : List (ℕ × List ℕ)) → AreBodies ms → IsStream (unsegmented be ms)
unsegmented-IsStream be [] h = tt
unsegmented-IsStream be (m ∷ ms) (h, hs) = (h, tt, unsegmented-IsStream be ms hs)

module _ {G : Type 0} where
  tx_header-frame :
      (c : Core G) (cmd : ℕ) (body : List ℕ)
      → length body < 2 ^ 32 - 8
      → header_bytes c.send_be (tx_header c cmd (length body)) ++ body
        ≡ frame (not c.is_client) c.send_be only cmd body
  tx_header-frame c cmd body h =
      let e : length body % 2 ^ 32 ≡ length body = omega arith in
      elim c.is_client
        as (λ x.
          header_bytes c.send_be (record {
            cmd = cmd;
            flags = if x then 0 else 0x40;
            version = 0;
            len = length body % 2 ^ 32;
          })
            ++ body
          ≡ frame (not x) c.send_be only cmd body) [ true ↦ rw e refl | false ↦ rw e refl ]

  send_all-output :
      (c : Core G) (b : Bev) (ms : List (ℕ × List ℕ))
      → AreBodies ms
      → (send_all c b ms).1.output
        ≡ b.output ++ stream_bytes (not c.is_client) (unsegmented c.send_be ms)
  unfolding enqueue_tx_body
  send_all-output c b [] h = sym (append-nil b.output)
  send_all-output c b (m ∷ ms) (h, hs) =
      let w =
        to_wire_header-Writes (vector_out c.send_be) (tx_header c m.0 (length m.1)) refl
          (inl refl) in
      let f = frame (not c.is_client) c.send_be only m.0 m.1 in
      let r = enqueue_tx_body c b m.0 m.1 in
      send_all-output r.0 r.1 ms hs
      ∙ rw (w.appended, tx_header-frame c m.0 m.1 h)
          (append_assoc b.output f (stream_bytes (not c.is_client) (unsegmented c.send_be ms)))

-- Messages that one ConnBase enqueues with bodies below 2^32 - 8 bytes, cut into reads in any way,
-- reach the handlers of a new connection on the other side once each and in order with their
-- commands and bodies, until a handler gives the connection up and it is closed; commands that the
-- switch does not name are left out.
pub send_all-handled :
    {G H : Type 0} (hs : Handlers H) (c : Core G) (b : Bev) (size : ℕ) (be : Bool) (u : H)
    (ms : List (ℕ × List ℕ)) (chunks : List (List ℕ))
    → AreBodies ms
    → b.output ≡ []
    → concat chunks ≡ (send_all c b ms).1.output
    → upper_of (receive_all hs (some (connect (new_core (not c.is_client) be u) size)) chunks)
      ≡ some (handled hs (unsegmented c.send_be ms) u)
send_all-handled hs c b size be u ms chunks short empty e =
    receive_all-handled hs (not c.is_client) be size u (unsegmented c.send_be ms) chunks
      (unsegmented-IsStream c.send_be ms short) (e ∙ send_all-output c b ms short ∙ rw empty refl)

-- A segment that its place does not allow: one that starts a message within another, one that
-- continues no message, and one that continues another command.
abbrev pub OutOfPlace : Bool → ℕ → Place → ℕ → Type 0
OutOfPlace expected current only cmd = expected ≡ true
OutOfPlace expected current front cmd = expected ≡ true
OutOfPlace expected current middle cmd = (expected ≡ false) ⊎ ((cmd == current) ≡ false)
OutOfPlace expected current back cmd = (expected ≡ false) ⊎ ((cmd == current) ≡ false)

-- A segment that does not come from the other side, or that is out of place.
abbrev pub Violates : {H : Type 0} → Core H → Bool → Place → ℕ → Type 0
Violates c srv p cmd =
    (c.is_client ≡ not srv) ⊎ ((c.is_client ≡ srv) × OutOfPlace c.expect_seg c.seg_cmd p cmd)

xor_other : (a s : Bool) → xor a s ≡ false → xor (not a) s ≡ true
unfolding xor
xor_other true true e = refl
xor_other true false e = sym e
xor_other false true e = sym e
xor_other false false e = refl

module _ {H : Type 0} where
  -- The handlers' state, where the connection was closed.
  abbrev pub closed_with : Option (Conn H) → Option H
  closed_with none = none
  closed_with (some (open_conn c b)) = none
  closed_with (some (no_bev c)) = some c.upper

  module _ (hs : Handlers H) where
    segment-OutOfPlace :
        (c : Core H) (f cmd : ℕ) (p : Place) (rx : List ℕ)
        → has f Flags.seg_last ≡ continues p
        → OutOfPlace c.expect_seg c.seg_cmd p cmd
        → segment hs c f cmd rx ≡ dropped c
    unfolding segment xor
    segment-OutOfPlace c f cmd only rx e h = rw (e, h) refl
    segment-OutOfPlace c f cmd front rx e h = rw (e, h) refl
    segment-OutOfPlace c f cmd middle rx e (inl h) = rw (e, h) refl
    segment-OutOfPlace c f cmd middle rx e (inr h) = rw (e, h, or-true (xor true c.expect_seg)) refl
    segment-OutOfPlace c f cmd back rx e (inl h) = rw (e, h) refl
    segment-OutOfPlace c f cmd back rx e (inr h) = rw (e, h, or-true (xor true c.expect_seg)) refl

    step-bad_header : (c : Core H) (rx : List ℕ) → bad_header c rx ≡ true → step hs c rx ≡ dropped c
    unfolding step
    step-bad_header c rx e = rw e refl

    step_other_side :
        (c : Core H) (srv be : Bool) (p : Place) (cmd : ℕ) (body rest : List ℕ)
        → c.is_client ≡ not srv
        → step hs c (frame srv be p cmd body ++ rest) ≡ dropped c
    step_other_side c srv be p cmd body rest e =
        let f = header_flags be (place_flags srv p) in
        let other : xor c.is_client (has f Flags.server) ≡ true =
          rw e (xor_other srv (has f Flags.server) (frame_flags srv be p).0) in
        step-bad_header c (frame srv be p cmd body ++ rest) (rw other (or-true _))

    run_violation :
        (c : Core H) (out : List ℕ) (srv be : Bool) (p : Place) (cmd : ℕ) (body rest : List ℕ)
        → length body < 2 ^ 32 - 8
        → Violates c srv p cmd
        → closed_with (run hs out c (frame srv be p cmd body ++ rest)) ≡ some (hs.close c.upper)
    run_violation c out srv be p cmd body rest short (inl other) =
        rw
          (
            run-step hs out c (frame srv be p cmd body ++ rest)
                (length-frame srv be p cmd body rest),
            step_other_side c srv be p cmd body rest other,
          )
          refl
    run_violation c out srv be p cmd body rest short (inr (side, wrong)) =
        let (_, _, _, later) = frame_flags srv be p in
        rw
          (
            run-frame hs out srv be p cmd body rest c side short,
            segment-OutOfPlace (with_body hs c be body) (header_flags be (place_flags srv p)) cmd p
                rest later wrong,
          )
          refl

    -- At the front of the input, a message with a body below 2^32 - 8 bytes whose flag says that
    -- it comes from the same side, or a segment out of place (one that starts a message within
    -- another, continues none, or continues one of another command), closes the connection: no
    -- handler sees its body nor what follows, only the cleanup is called.
    pub receive_violation :
        (c : Core H) (b : Bev) (srv be : Bool) (p : Place) (cmd : ℕ) (body rest : List ℕ)
        → b.input ≡ []
        → length body < 2 ^ 32 - 8
        → Violates c srv p cmd
        → closed_with (receive hs (open_conn c b) (frame srv be p cmd body ++ rest))
          ≡ some (hs.close c.upper)
    unfolding receive
    receive_violation c b srv be p cmd body rest empty short wrong =
        rw empty (run_violation c b.output srv be p cmd body rest short wrong)
