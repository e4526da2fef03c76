-- ===== src/Framing/Frames.antt =====
-- src/conn.cpp: what bevRead makes of one segment.
use pvxs.Prelude.{
  ℕ, suc, ◌+◌, ◌-◌, ◌<◌, ◌^◌, ◌%◌, ◌≡◌, refl, subst, ◌∙◌, ap, Bool, true, false, List, [], ◌∷◌,
  ◌++◌, length, length-append, take-append, drop-append, arith, append_assoc, append-nil, ltb,
  ==_refl, xor,
}
use pvxs.Wire.Buffer.{fixed_in}
use pvxs.Wire.Scalar.{wire_bytes, from_wire_u32, host_be}
use pvxs.Wire.ScalarLaws.{from_wire-wire_bytes, length-wire_bytes}
use pvxs.Wire.Header.{has, header_flags, header_version}
use pvxs.Wire.Header.Flags
use pvxs.Framing.Conn.{Core, Handlers}
use pvxs.Framing.Read.{
  with_header, going, dispatch, segment, app_message, step, body_length, bad_header, flags_of,
}
use pvxs.Framing.Message.{Place, only, front, middle, back, place_flags, frame}

-- A later segment of a message.
abbrev pub continues : Place → Bool
continues only = false
continues front = false
continues middle = true
continues back = true

abbrev pub FrameFlags : Bool → Bool → Place → ℕ → Type 0
FrameFlags srv be p f =
    (xor srv (has f Flags.server) ≡ false)
    × (has f Flags.control ≡ false)
    × (has f Flags.msb ≡ be)
    × (has f Flags.seg_last ≡ continues p)

pub frame_flags :
    (srv be : Bool) (p : Place) → FrameFlags srv be p (header_flags be (place_flags srv p))
unfolding xor
frame_flags true true only = (refl, refl, refl, refl)
frame_flags true true front = (refl, refl, refl, refl)
frame_flags true true middle = (refl, refl, refl, refl)
frame_flags true true back = (refl, refl, refl, refl)
frame_flags true false only = (refl, refl, refl, refl)
frame_flags true false front = (refl, refl, refl, refl)
frame_flags true false middle = (refl, refl, refl, refl)
frame_flags true false back = (refl, refl, refl, refl)
frame_flags false true only = (refl, refl, refl, refl)
frame_flags false true front = (refl, refl, refl, refl)
frame_flags false true middle = (refl, refl, refl, refl)
frame_flags false true back = (refl, refl, refl, refl)
frame_flags false false only = (refl, refl, refl, refl)
frame_flags false false front = (refl, refl, refl, refl)
frame_flags false false middle = (refl, refl, refl, refl)
frame_flags false false back = (refl, refl, refl, refl)

frame_version : (srv : Bool) (p : Place) → header_version (place_flags srv p) ≡ 2
frame_version true only = refl
frame_version true front = refl
frame_version true middle = refl
frame_version true back = refl
frame_version false only = refl
frame_version false front = refl
frame_version false middle = refl
frame_version false back = refl

module _ {H : Type 0} (hs : Handlers H) where
  -- The connection with a segment's body in segBuf.
  abbrev pub with_body : Core H → Bool → List ℕ → Core H
  with_body c be body = record c {
    peer_be = be;
    peer_version = 2;
    seg_buf = c.seg_buf ++ body;
    stat_rx = (c.stat_rx + with_header (length body)) % 2 ^ 64;
  }

  length_field :
      (be : Bool) (n : ℕ)
      → n < 2 ^ 32 - 8
      → (from_wire_u32 0 (fixed_in be (wire_bytes be 4 n))).0 ≡ n
  length_field be n h =
      subst (λ r. (from_wire_u32 0 (fixed_in be r)).0 ≡ n) (append-nil (wire_bytes be 4 n))
        (ap (λ p. p.0) (from_wire-wire_bytes host_be be 4 0 n [] (omega arith)))

  -- A body that is there is moved behind segBuf.
  app_message_whole :
      (c : Core H) (h0 h1 h2 h3 : ℕ) (ws body rest : List ℕ)
      → length ws ≡ 4
      → app_message hs c (h0 ∷ h1 ∷ h2 ∷ h3 ∷ ws ++ (body ++ rest)) (length body)
        ≡ segment hs (record (with_body c (has h2 Flags.msb) body) { peer_version = h1 }) h2 h3 rest
  unfolding app_message
  app_message_whole c h0 h1 h2 h3 ws body rest four =
      let n : length (ws ++ (body ++ rest)) ≡ 4 + (length body + length rest) =
        omega (arith, length-append ws (body ++ rest), length-append body rest) in
      let fits : ltb (suc (suc (suc (suc (length (ws ++ (body ++ rest)))))) - 8) (length body)
          ≡ false =
        ground (arith, n) in
      rw
        (
          fits,
          drop-append 4 ws (body ++ rest) four,
          take-append (length body) body rest refl,
          drop-append (length body) body rest refl,
        )
        refl

  step-app_message :
      (c : Core H) (rx : List ℕ)
      → bad_header c rx ≡ false
      → has (flags_of rx) Flags.control ≡ false
      → step hs c rx ≡ app_message hs c rx (body_length rx)
  unfolding step
  step-app_message c rx fine app = rw (fine, app) refl

  pub step-frame :
      (srv be : Bool) (p : Place) (cmd : ℕ) (body rest : List ℕ) (c : Core H)
      → c.is_client ≡ srv
      → length body < 2 ^ 32 - 8
      → step hs c (frame srv be p cmd body ++ rest)
        ≡ segment hs (with_body c be body) (header_flags be (place_flags srv p)) cmd rest
  unfolding pvxs.Wire.Scalar.from_wire
  step-frame srv be p cmd body rest c side short =
      let (ours, app, order, _) = frame_flags srv be p in
      let ws : List ℕ = wire_bytes be 4 (length body) in
      let f = header_flags be (place_flags srv p) in
      let rx : List ℕ = 0xca ∷ 2 ∷ f ∷ cmd ∷ ws ++ (body ++ rest) in
      let len : body_length rx ≡ length body =
        rw (order, take-append 4 ws (body ++ rest) (length-wire_bytes be 4 (length body)))
          (length_field be (length body) short) in
      rw (append_assoc ws body rest, frame_version srv p)
        (step-app_message c rx (rw (side, ours) refl) app
          ∙ ap (app_message hs c rx) len
          ∙ app_message_whole c 0xca 2 f cmd ws body rest (length-wire_bytes be 4 (length body))
          ∙ rw order refl)

  -- A segment where one is expected: the first of a message, a whole message, or a later one.
  abbrev pub started : Core H → ℕ → Core H
  started c cmd = record c { expect_seg = true; seg_cmd = cmd }

  pub segment_fresh :
      (c : Core H) (srv be : Bool) (cmd : ℕ) (rx : List ℕ)
      → c.expect_seg ≡ false
      → (segment hs c (header_flags be (place_flags srv only)) cmd rx
          ≡ dispatch hs (started c cmd) rx)
        × (segment hs c (header_flags be (place_flags srv front)) cmd rx ≡ going (started c cmd) rx)
  unfolding segment xor
  segment_fresh c true true cmd rx h = rw h (refl, refl)
  segment_fresh c true false cmd rx h = rw h (refl, refl)
  segment_fresh c false true cmd rx h = rw h (refl, refl)
  segment_fresh c false false cmd rx h = rw h (refl, refl)

  pub segment_continued :
      (c : Core H) (srv be : Bool) (rx : List ℕ)
      → c.expect_seg ≡ true
      → (segment hs c (header_flags be (place_flags srv middle)) c.seg_cmd rx ≡ going c rx)
        × (segment hs c (header_flags be (place_flags srv back)) c.seg_cmd rx ≡ dispatch hs c rx)
  unfolding segment xor
  segment_continued c true true rx h = rw (h, ==_refl c.seg_cmd) (refl, refl)
  segment_continued c true false rx h = rw (h, ==_refl c.seg_cmd) (refl, refl)
  segment_continued c false true rx h = rw (h, ==_refl c.seg_cmd) (refl, refl)
  segment_continued c false false rx h = rw (h, ==_refl c.seg_cmd) (refl, refl)
