-- ===== src/Framing/Chunks.antt =====
-- How the bytes of a stream are cut into reads.
use Prim.Native.Nat.{bit_and}
use pvxs.Prelude.{
  ℕ, zero, suc, ◌-◌, ◌≤◌, ◌≡◌, refl, sym, subst, ap, false, not, xor, ◌&&◌, ◌||◌, List, [], ◌∷◌,
  ◌++◌, ltb, ◌==◌, length, length-append, length-drop, take, drop, if-both, if-rel, Bool-cases, inl,
  inr, arith,
}
use pvxs.Wire.Header.{has}
use pvxs.Wire.Header.Flags
use pvxs.Framing.Conn.{Core, Handlers}
use pvxs.Framing.Read.{
  Step, going, waiting, dropped, known, flags_of, cmd_of, bad_header, app_header, body_length,
  dispatch, segment, app_message, step, whole, start_message, take_body,
}

take-append_le {ℓ} :
    {A : Type ℓ} (n : ℕ) (xs ys : List A) → n ≤ length xs → take n (xs ++ ys) ≡ take n xs
take-append_le zero xs ys h = refl
take-append_le (suc n) [] ys h = absurd (omega arith)
take-append_le (suc n) (x ∷ xs) ys h = ap (◌∷◌ x) (take-append_le n xs ys (omega arith))

drop-append_le {ℓ} :
    {A : Type ℓ} (n : ℕ) (xs ys : List A) → n ≤ length xs → drop n (xs ++ ys) ≡ drop n xs ++ ys
drop-append_le zero xs ys h = refl
drop-append_le (suc n) [] ys h = absurd (omega arith)
drop-append_le (suc n) (x ∷ xs) ys h = drop-append_le n xs ys (omega arith)

module _ {H : Type 0} (hs : Handlers H) where
  -- The input is consumed down to a shorter one.
  abbrev pub Shorter : ℕ → Step H → Type 0
  Shorter n (going c rx) = length rx ≤ n
  Shorter n _ = Unit

  dispatch-Shorter : (c : Core H) (rx : List ℕ) → Shorter (length rx) (dispatch hs c rx)
  unfolding dispatch
  dispatch-Shorter c rx =
      if-both (Shorter (length rx)) (known c.seg_cmd)
        (λ _.
          if-both (Shorter (length rx)) (hs.handle c.seg_cmd c.peer_be c.seg_buf c.upper).1
            (λ _. omega arith) (λ _. tt))
        (λ _. omega arith)

  segment-Shorter :
      (c : Core H) (flags cmd : ℕ) (rx : List ℕ) → Shorter (length rx) (segment hs c flags cmd rx)
  unfolding segment
  segment-Shorter c flags cmd rx =
      if-both (Shorter (length rx))
        (xor (has flags Flags.seg_last) c.expect_seg
          || (has flags Flags.seg_last && not (cmd == c.seg_cmd)))
        (λ _. tt)
        (λ _.
          if-both (Shorter (length rx))
            (whole flags || bit_and flags Flags.seg_mask == Flags.seg_last)
            {x = dispatch hs (start_message c flags cmd) rx}
            {y = going (start_message c flags cmd) rx}
            (λ _. dispatch-Shorter (start_message c flags cmd) rx) (λ _. omega arith))

  -- What one message comes to, and what it comes to where more bytes follow.
  abbrev pub Extends : List ℕ → Core H → List ℕ → Step H → Step H → Type 0
  Extends ys c rx (going c' rx') t = t ≡ going c' (rx' ++ ys)
  Extends ys c rx (dropped c') t = t ≡ dropped c'
  Extends ys c rx (waiting c' low high) t = step hs c' (rx ++ ys) ≡ t

  module _ (ys : List ℕ) (c0 : Core H) (rx0 : List ℕ) where
    abbrev Ext : Step H → Step H → Type 0
    Ext = Extends ys c0 rx0

    dispatch-Extends :
        (c : Core H) (rx : List ℕ) → Ext (dispatch hs c rx) (dispatch hs c (rx ++ ys))
    unfolding dispatch
    dispatch-Extends c rx =
        if-rel Ext (known c.seg_cmd)
          (λ _.
            if-rel Ext (hs.handle c.seg_cmd c.peer_be c.seg_buf c.upper).1 (λ _. refl) (λ _. refl))
          (λ _. refl)

    segment-Extends :
        (c : Core H) (flags cmd : ℕ) (rx : List ℕ)
        → Ext (segment hs c flags cmd rx) (segment hs c flags cmd (rx ++ ys))
    unfolding segment
    segment-Extends c flags cmd rx =
        let c1 = start_message c flags cmd in
        if-rel Ext
          (xor (has flags Flags.seg_last) c.expect_seg
            || (has flags Flags.seg_last && not (cmd == c.seg_cmd)))
          (λ _. refl)
          (λ _.
            if-rel Ext (whole flags || bit_and flags Flags.seg_mask == Flags.seg_last)
              {x = dispatch hs c1 rx} {y = going c1 rx} {z = dispatch hs c1 (rx ++ ys)}
              {w = going c1 (rx ++ ys)} (λ _. dispatch-Extends c1 rx) (λ _. refl))

  -- A body that is there stays the same where more bytes follow.
  app_message_more :
      (c : Core H) (h0 h1 h2 h3 h4 h5 h6 h7 : ℕ) (r ys : List ℕ) (len : ℕ)
      → let rx : List ℕ = h0 ∷ h1 ∷ h2 ∷ h3 ∷ h4 ∷ h5 ∷ h6 ∷ h7 ∷ r in
        ltb (length rx - 8) len ≡ false
        → app_message hs c (rx ++ ys) len
          ≡ segment hs (take_body (app_header c rx) rx len) h2 h3 (drop len r ++ ys)
  unfolding app_message
  app_message_more c h0 h1 h2 h3 h4 h5 h6 h7 r ys len h =
      let le : len ≤ length r = ground arith in
      let rx : List ℕ = h0 ∷ h1 ∷ h2 ∷ h3 ∷ h4 ∷ h5 ∷ h6 ∷ h7 ∷ r in
      let more : ltb (length (rx ++ ys) - 8) len ≡ false = ground (arith, length-append r ys) in
      rw (more, take-append_le len r ys le, drop-append_le len r ys le) refl

  Shorter-le : (s : Step H) (m n : ℕ) → m ≤ n → Shorter m s → Shorter n s
  Shorter-le (going c rx) m n h k = omega arith
  Shorter-le (waiting c low high) m n h k = tt
  Shorter-le (dropped c) m n h k = tt

  step_header-Extends :
      (c : Core H) (h0 h1 h2 h3 h4 h5 h6 h7 : ℕ) (r ys : List ℕ)
      → let rx : List ℕ = h0 ∷ h1 ∷ h2 ∷ h3 ∷ h4 ∷ h5 ∷ h6 ∷ h7 ∷ r in
        Extends ys c rx (step hs c rx) (step hs c (rx ++ ys))
  unfolding step app_message
  step_header-Extends c h0 h1 h2 h3 h4 h5 h6 h7 r ys =
      let rx : List ℕ = h0 ∷ h1 ∷ h2 ∷ h3 ∷ h4 ∷ h5 ∷ h6 ∷ h7 ∷ r in
      let len = body_length rx in
      let c1 = app_header c rx in
      if-rel (Extends ys c rx) (bad_header c rx) (λ _. refl)
        (λ fine.
          if-rel (Extends ys c rx) (has h2 Flags.control) (λ _. refl)
            (λ app. elim (Bool-cases (ltb (length rx - 8) len)) [
              | inl short ↦ rw short (rw (fine, app) refl)
              | inr enough ↦ rw enough (
                  subst (Extends ys c rx (segment hs (take_body c1 rx len) h2 h3 (drop len r)))
                    (sym (app_message_more c h0 h1 h2 h3 h4 h5 h6 h7 r ys len enough))
                    (segment-Extends ys c rx (take_body c1 rx len) h2 h3 (drop len r)))
            ]))

  -- The view of an input with a header in it.
  pub step-Extends :
      (c : Core H) (rx ys : List ℕ)
      → 8 ≤ length rx
      → Extends ys c rx (step hs c rx) (step hs c (rx ++ ys))
  step-Extends c (h0 ∷ h1 ∷ h2 ∷ h3 ∷ h4 ∷ h5 ∷ h6 ∷ h7 ∷ r) ys h =
      step_header-Extends c h0 h1 h2 h3 h4 h5 h6 h7 r ys
  step-Extends c [] ys h = absurd (omega arith)
  step-Extends c (a ∷ []) ys h = absurd (omega arith)
  step-Extends c (a ∷ b ∷ []) ys h = absurd (omega arith)
  step-Extends c (a ∷ b ∷ d ∷ []) ys h = absurd (omega arith)
  step-Extends c (a ∷ b ∷ d ∷ e ∷ []) ys h = absurd (omega arith)
  step-Extends c (a ∷ b ∷ d ∷ e ∷ f ∷ []) ys h = absurd (omega arith)
  step-Extends c (a ∷ b ∷ d ∷ e ∷ f ∷ g ∷ []) ys h = absurd (omega arith)
  step-Extends c (a ∷ b ∷ d ∷ e ∷ f ∷ g ∷ i ∷ []) ys h = absurd (omega arith)

  pub step-Shorter : (c : Core H) (rx : List ℕ) → Shorter (length rx - 8) (step hs c rx)
  unfolding step app_message
  step-Shorter c rx =
      let len = body_length rx in
      let P = Shorter (length rx - 8) in
      if-both P (bad_header c rx) (λ _. tt)
        (λ _.
          if-both P (has (flags_of rx) Flags.control) (λ _. omega (arith, length-drop 8 rx))
            (λ _.
              if-both P (ltb (length rx - 8) len) (λ _. tt)
                (λ _.
                  Shorter-le
                    (segment hs (take_body (app_header c rx) rx len) (flags_of rx) (cmd_of rx)
                      (drop len (drop 8 rx)))
                    (length (drop len (drop 8 rx))) (length rx - 8)
                    (omega (arith, length-drop len (drop 8 rx), length-drop 8 rx))
                    (segment-Shorter (take_body (app_header c rx) rx len) (flags_of rx) (cmd_of rx)
                      (drop len (drop 8 rx))))))
