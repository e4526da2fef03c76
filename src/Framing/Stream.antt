-- ===== src/Framing/Stream.antt =====
-- src/conn.cpp: bevRead over a whole stream.
use pvxs.Prelude.{
  ℕ, zero, suc, ◌-◌, ◌≤◌, ◌<◌, ◌≡◌, refl, ◌∙◌, true, Option, none, some, List, [], ◌∷◌, ◌++◌, leb,
  leb→le, le→leb, length, length-append, Bool-cases, inl, inr, arith, append_assoc, append-nil,
}
use pvxs.Framing.Conn.{Core, Conn, open_conn, no_bev, Handlers}
use pvxs.Framing.Read.{Step, going, waiting, dropped, step, keep, next, read_loop, receive}
use pvxs.Framing.Message.{concat}
use pvxs.Framing.Chunks.{Shorter, Extends, step-Extends, step-Shorter}

module _ {H : Type 0} (hs : Handlers H) where
  abbrev Loop : Type 0
  Loop = Core H → List ℕ → Option (Conn H)

  -- Two ways to go on that agree on inputs shorter than n agree after one message.
  next_agree :
      (l1 l2 : Loop) (rx out : List ℕ) (n : ℕ)
      → ((c : Core H) (rx : List ℕ) → length rx ≤ n → l1 c rx ≡ l2 c rx)
      → (s : Step H) → Shorter hs n s
      → next hs l1 rx out s ≡ next hs l2 rx out s
  next_agree l1 l2 rx out n same (going c' rx') le = same c' rx' le
  next_agree l1 l2 rx out n same (waiting c' low high) le = refl
  next_agree l1 l2 rx out n same (dropped c') le = refl

  -- Two amounts of fuel, both above the input's length, do the same.
  fuel_enough :
      (f g : ℕ) (out : List ℕ) (c : Core H) (rx : List ℕ)
      → length rx < f
      → length rx < g
      → read_loop hs f out c rx ≡ read_loop hs g out c rx
  unfolding read_loop
  fuel_enough zero g out c rx h k = absurd (omega arith)
  fuel_enough (suc f) zero out c rx h k = absurd (omega arith)
  fuel_enough (suc f) (suc g) out c rx h k = elim (Bool-cases (leb 8 (length rx))) [
    | inl long ↦ rw long (
        let le : 8 ≤ length rx = leb→le 8 (length rx) long in
        next_agree (read_loop hs f out) (read_loop hs g out) rx out (length rx - 8)
          (λ c' rx' le'. fuel_enough f g out c' rx' (omega arith) (omega arith)) (step hs c rx)
          (step-Shorter hs c rx))
    | inr short ↦ rw short refl
  ]

  -- Enough fuel gives a result.
  abbrev Returns : Option (Conn H) → Type 0
  Returns none = ⊥
  Returns (some k) = Unit

  next-Returns :
      (l : Loop) (rx out : List ℕ) (n : ℕ)
      → ((c : Core H) (rx : List ℕ) → length rx ≤ n → Returns (l c rx))
      → (s : Step H) → Shorter hs n s
      → Returns (next hs l rx out s)
  next-Returns l rx out n ret (going c' rx') le = ret c' rx' le
  next-Returns l rx out n ret (waiting c' low high) le = tt
  next-Returns l rx out n ret (dropped c') le = tt

  read_loop-Returns :
      (f : ℕ) (out : List ℕ) (c : Core H) (rx : List ℕ)
      → length rx < f
      → Returns (read_loop hs f out c rx)
  unfolding read_loop
  read_loop-Returns zero out c rx h = absurd (omega arith)
  read_loop-Returns (suc f) out c rx h = elim (Bool-cases (leb 8 (length rx))) [
    | inl long ↦ rw long (
        let le : 8 ≤ length rx = leb→le 8 (length rx) long in
        next-Returns (read_loop hs f out) rx out (length rx - 8)
          (λ c' rx' le'. read_loop-Returns f out c' rx' (omega arith)) (step hs c rx)
          (step-Shorter hs c rx))
    | inr short ↦ rw short tt
  ]

  abbrev pub then_receive : List ℕ → Option (Conn H) → Option (Conn H)
  then_receive ys none = none
  then_receive ys (some k) = receive hs k ys

  next_more :
      (l : Loop) (out : List ℕ) (c : Core H) (rx ys : List ℕ) (n : ℕ)
      → leb 8 (length (rx ++ ys)) ≡ true
      → ((c' : Core H) (rx' : List ℕ)
          → length rx' ≤ n
          → then_receive ys (l c' rx') ≡ read_loop hs (length (rx ++ ys)) out c' (rx' ++ ys))
      → (s t : Step H) → Shorter hs n s
      → Extends hs ys c rx s t
      → then_receive ys (next hs l rx out s)
        ≡ next hs (read_loop hs (length (rx ++ ys)) out) (rx ++ ys) out t
  unfolding read_loop receive
  next_more l out c rx ys n long same (going c' rx') t le e = rw e (same c' rx' le)
  next_more l out c rx ys n long same (waiting c' low high) t le e = rw (long, e) refl
  next_more l out c rx ys n long same (dropped c') t le e = rw e refl

  -- One read, and a second one when more bytes have come, do what one read of both does.
  loop_more :
      (f : ℕ) (out : List ℕ) (c : Core H) (rx ys : List ℕ)
      → length rx < f
      → then_receive ys (read_loop hs f out c rx)
        ≡ read_loop hs (suc (length (rx ++ ys))) out c (rx ++ ys)
  unfolding read_loop receive
  loop_more zero out c rx ys h = absurd (omega arith)
  loop_more (suc f) out c rx ys h = elim (Bool-cases (leb 8 (length rx))) [
    | inl long ↦
        let le : 8 ≤ length rx = leb→le 8 (length rx) long in
        let long' : leb 8 (length (rx ++ ys)) ≡ true =
          le→leb 8 (length (rx ++ ys)) (omega (arith, length-append rx ys)) in
        rw (long, long')
          (next_more (read_loop hs f out) out c rx ys (length rx - 8) long'
            (λ c' rx' le'.
              loop_more f out c' rx' ys (omega arith)
              ∙ fuel_enough (suc (length (rx' ++ ys))) (length (rx ++ ys)) out c' (rx' ++ ys)
                  (omega arith) (omega (arith, length-append rx ys, length-append rx' ys)))
            (step hs c rx) (step hs c (rx ++ ys)) (step-Shorter hs c rx)
            (step-Extends hs c rx ys le))
    | inr short ↦ rw short refl
  ]

  -- The loop with the fuel that bevRead gives it, one message at a time.
  abbrev pub run : List ℕ → Core H → List ℕ → Option (Conn H)
  run out c rx = read_loop hs (suc (length rx)) out c rx

  pub run-step :
      (out : List ℕ) (c : Core H) (rx : List ℕ)
      → 8 ≤ length rx
      → run out c rx ≡ next hs (run out) rx out (step hs c rx)
  unfolding read_loop
  run-step out c rx le = rw (le→leb 8 (length rx) le) (
      next_agree (read_loop hs (length rx) out) (run out) rx out (length rx - 8)
        (λ c' rx' le'.
          fuel_enough (length rx) (suc (length rx')) out c' rx' (omega arith) (omega arith))
        (step hs c rx) (step-Shorter hs c rx))

  pub run_short :
      (out : List ℕ) (c : Core H) (rx : List ℕ)
      → length rx < 8
      → run out c rx ≡ some (keep c rx out 8 c.readahead)
  unfolding read_loop
  run_short out c rx lt = elim (Bool-cases (leb 8 (length rx))) [
    | inl long ↦ absurd (omega (arith, leb→le 8 (length rx) long))
    | inr short ↦ rw short refl
  ]

  -- Reads one after the other, as the bytes come.
  abbrev pub receive_all : Option (Conn H) → List (List ℕ) → Option (Conn H)
  receive_all o [] = o
  receive_all o (x ∷ xs) = receive_all (then_receive x o) xs

  receive_twice :
      (k : Conn H) (xs ys : List ℕ) → then_receive ys (receive hs k xs) ≡ receive hs k (xs ++ ys)
  unfolding receive
  receive_twice (no_bev c) xs ys = refl
  receive_twice (open_conn c b) xs ys =
      loop_more (suc (length (b.input ++ xs))) b.output c (b.input ++ xs) ys (omega arith)
      ∙ rw (append_assoc b.input xs ys) refl

  then_receive_twice :
      (o : Option (Conn H)) (xs ys : List ℕ)
      → then_receive ys (then_receive xs o) ≡ then_receive (xs ++ ys) o
  then_receive_twice none xs ys = refl
  then_receive_twice (some k) xs ys = receive_twice k xs ys

  receive_all_then :
      (o : Option (Conn H)) (x : List ℕ) (xs : List (List ℕ))
      → receive_all o (x ∷ xs) ≡ then_receive (x ++ concat xs) o
  receive_all_then o x [] = rw (append-nil x) refl
  receive_all_then o x (y ∷ ys) =
      receive_all_then (then_receive x o) y ys ∙ then_receive_twice o x (y ++ concat ys)

  -- However the bytes of a stream are cut into reads, the connection ends in the same state: its
  -- fields, buffers, watermarks and what the handlers did are those of one read of all the bytes.
  pub receive_all-receive :
      (k : Conn H) (x : List ℕ) (xs : List (List ℕ))
      → receive_all (some k) (x ∷ xs) ≡ receive hs k (x ++ concat xs)
  receive_all-receive k x xs = receive_all_then (some k) x xs

  Returns-some : (o : Option (Conn H)) → Returns o → (k : Conn H) × (o ≡ some k)
  Returns-some none h = absurd h
  Returns-some (some k) h = (k, refl)

  -- bevRead returns on any connection and any input: the fuel, one more than there are bytes, is
  -- enough.
  pub receive_returns :
      (k : Conn H) (bytes : List ℕ) → (k' : Conn H) × (receive hs k bytes ≡ some k')
  unfolding receive
  receive_returns (no_bev c) bytes = (no_bev c, refl)
  receive_returns (open_conn c b) bytes = Returns-some _ (
      read_loop-Returns (suc (length (b.input ++ bytes))) b.output c (b.input ++ bytes)
        (omega arith))
