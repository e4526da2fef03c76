-- ===== src/SharedPv/Views.antt =====
-- src/sharedpv.cpp: what each subscription has been sent, against the value of the PV.
use pvxs.Prelude.{
  ℕ, suc, ◌+◌, ◌≤◌, ◌<◌, ◌≡◌, ◌≢◌, refl, sym, subst, ap, ◌∙◌, Bool, true, false, Option, none, some,
  List, [], ◌∷◌, ◌++◌, ◌==◌, ==_refl, if◌then◌else◌, if-both, arith, All,
}
use pvxs.SharedPv.State.{
  Values, Subscriber, SharedPv, Event, op_connected, op_failed, sub_connected, sub_posted,
  exec_replied, exec_failed, put_called, rpc_called, first_connected, last_disconnected,
  channel_closed, remove_sub, for_each, connect_sub, post_sub,
}

module _ {V : Type 0} (vs : Values V) where
  abbrev pub taken : Option V → V → V
  taken none v = v
  taken (some a) v = vs.assign a v

  -- What the updates of a subscription come to, each taken into the one before, from its connect().
  abbrev pub seen : ℕ → Option V → List (Event V) → Option V
  seen n a [] = a
  seen n a (sub_connected m v ∷ ev) = seen n (if m == n then none else a) ev
  seen n a (sub_posted m v ∷ ev) = seen n (if m == n then some (taken a v) else a) ev
  seen n a (e ∷ ev) = seen n a ev

  pub seen-append :
      (n : ℕ) (a : Option V) (x y : List (Event V)) → seen n a (x ++ y) ≡ seen n (seen n a x) y
  seen-append n a [] y = refl
  seen-append n a (sub_connected m v ∷ x) y = seen-append n (if m == n then none else a) x y
  seen-append n a (sub_posted m v ∷ x) y =
      seen-append n (if m == n then some (taken a v) else a) x y
  seen-append n a (op_connected c v ∷ x) y = seen-append n a x y
  seen-append n a (op_failed c ∷ x) y = seen-append n a x y
  seen-append n a (exec_replied v ∷ x) y = seen-append n a x y
  seen-append n a (exec_failed ∷ x) y = seen-append n a x y
  seen-append n a (put_called v ∷ x) y = seen-append n a x y
  seen-append n a (rpc_called ∷ x) y = seen-append n a x y
  seen-append n a (first_connected ∷ x) y = seen-append n a x y
  seen-append n a (last_disconnected ∷ x) y = seen-append n a x y
  seen-append n a (channel_closed c ∷ x) y = seen-append n a x y

-- The numbers of the subscriptions rise from one bound to another.
abbrev pub Chain : ℕ → List Subscriber → ℕ → Type 0
Chain lo [] hi = lo ≤ hi
Chain lo (s ∷ ss) hi = (lo ≤ s.id) × Chain (suc s.id) ss hi

Chain-weaken :
    (lo lo' : ℕ) (ss : List Subscriber) (hi : ℕ) → lo' ≤ lo → Chain lo ss hi → Chain lo' ss hi
Chain-weaken lo lo' [] hi h c = omega arith
Chain-weaken lo lo' (s ∷ ss) hi h c = (omega arith, c.1)

pub Chain-remove_sub :
    (n lo : ℕ) (ss : List Subscriber) (hi : ℕ) → Chain lo ss hi → Chain lo (remove_sub n ss) hi
Chain-remove_sub n lo [] hi c = c
Chain-remove_sub n lo (s ∷ ss) hi c =
    if-both (λ l. Chain lo l hi) (s.id == n) {x = remove_sub n ss} {y = s ∷ remove_sub n ss}
      (λ _.
        Chain-weaken (suc s.id) lo (remove_sub n ss) hi (omega arith)
          (Chain-remove_sub n (suc s.id) ss hi c.1))
      (λ _. (c.0, Chain-remove_sub n (suc s.id) ss hi c.1))

pub Chain-push :
    (lo : ℕ) (ss : List Subscriber) (hi : ℕ) (s : Subscriber)
    → s.id ≡ hi
    → Chain lo ss hi
    → Chain lo (ss ++ (s ∷ [])) (hi + 1)
Chain-push lo [] hi s e c = (omega arith, omega arith)
Chain-push lo (t ∷ ss) hi s e c = (c.0, Chain-push (suc t.id) ss hi s e c.1)

pub All-remove_sub :
    (P : Subscriber → Type 0) (n : ℕ) (ss : List Subscriber) → All P ss → All P (remove_sub n ss)
All-remove_sub P n [] h = h
All-remove_sub P n (s ∷ ss) h =
    if-both (All P) (s.id == n) (λ _. All-remove_sub P n ss h.1)
      (λ _. (h.0, All-remove_sub P n ss h.1))

pub All-push :
    (P : Subscriber → Type 0) (ss : List Subscriber) (s : Subscriber)
    → All P ss
    → P s
    → All P (ss ++ (s ∷ []))
All-push P [] s h k = (k, tt)
All-push P (t ∷ ss) s h k = (h.0, All-push P ss s h.1 k)

Chain-lt : (lo : ℕ) (ss : List Subscriber) (hi : ℕ) → Chain lo ss hi → lo ≤ hi
Chain-lt lo [] hi c = c
Chain-lt lo (s ∷ ss) hi c = omega (arith, Chain-lt (suc s.id) ss hi c.1)

pub All-above :
    (P Q : Subscriber → Type 0) (lo : ℕ) (ss : List Subscriber) (hi : ℕ)
    → Chain lo ss hi
    → ((t : Subscriber) → lo ≤ t.id → t.id < hi → P t → Q t)
    → All P ss
    → All Q ss
All-above P Q lo [] hi c f h = tt
All-above P Q lo (s ∷ ss) hi c f h = (
  f s c.0 (Chain-lt (suc s.id) ss hi c.1) h.0,
  All-above P Q (suc s.id) ss hi c.1 (λ t l. f t (omega (arith, c.0, l))) h.1,
)

-- A loop whose body tells a subscription of nothing but its own events.
module _ {V : Type 0} (vs : Values V) (f : Subscriber → Subscriber × List (Event V))
    (same_id : (s : Subscriber) → (f s).0.id ≡ s.id)
    (own : (n : ℕ) (a : Option V) (s : Subscriber) → n ≢ s.id → seen vs n a (f s).1 ≡ a) where
  pub for_each-Chain :
      (lo : ℕ) (ss : List Subscriber) (hi : ℕ) → Chain lo ss hi → Chain lo (for_each f ss).0 hi
  for_each-Chain lo [] hi c = c
  for_each-Chain lo (s ∷ ss) hi c = (
    omega (arith, c.0, same_id s),
    subst (λ n. Chain (suc n) (for_each f ss).0 hi) (sym (same_id s))
        (for_each-Chain (suc s.id) ss hi c.1),
  )

  for_each-below :
      (n : ℕ) (a : Option V) (lo : ℕ) (ss : List Subscriber) (hi : ℕ)
      → n < lo
      → Chain lo ss hi
      → seen vs n a (for_each f ss).1 ≡ a
  for_each-below n a lo [] hi h c = refl
  for_each-below n a lo (s ∷ ss) hi h c =
      seen-append vs n a (f s).1 (for_each f ss).1
      ∙ ap (λ x. seen vs n x (for_each f ss).1) (own n a s (λ e. absurd (omega arith)))
      ∙ for_each-below n a (suc s.id) ss hi (omega arith) c.1

  -- What holds of a subscription and of what it has seen, before its turn and after.
  pub for_each-All :
      (P Q : Option V → Subscriber → Type 0)
      → ((s : Subscriber) (a : Option V) → P a s → Q (seen vs s.id a (f s).1) (f s).0)
      → (acc : ℕ → Option V) (lo : ℕ) (ss : List Subscriber) (hi : ℕ) → Chain lo ss hi
      → All (λ s. P (acc s.id) s) ss
      → All (λ s. Q (seen vs s.id (acc s.id) (for_each f ss).1) s) (for_each f ss).0
  for_each-All P Q step acc lo [] hi c h = tt
  for_each-All P Q step acc lo (s ∷ ss) hi c h =
      let own_ev = (f s).1 in
      let others = (for_each f ss).1 in
      let e =
        seen-append vs s.id (acc s.id) own_ev others
        ∙ for_each-below s.id (seen vs s.id (acc s.id) own_ev) (suc s.id) ss hi (omega arith) c.1 in
      (
        subst (λ n. Q (seen vs n (acc n) (own_ev ++ others)) (f s).0) (sym (same_id s))
            (subst (λ x. Q x (f s).0) (sym e) (step s (acc s.id) h.0)),
        All-above (λ t. Q (seen vs t.id (acc t.id) others) t)
            (λ t. Q (seen vs t.id (acc t.id) (own_ev ++ others)) t) (suc s.id) (for_each f ss).0 hi
            (for_each-Chain (suc s.id) ss hi c.1)
            (λ t l _ q.
              subst (λ x. Q x t)
                (sym (
                  seen-append vs t.id (acc t.id) own_ev others
                  ∙ ap (λ x. seen vs t.id x others)
                      (own t.id (acc t.id) s (λ e. absurd (omega arith)))))
                q)
            (for_each-All P Q step acc (suc s.id) ss hi c.1 h.1),
      )

-- What holds of a subscription, by the value of the PV and by what it has seen: while the PV is
-- closed it waits, and then it is connected, if its connect() returns, and has the value.
abbrev pub Follows : {V : Type 0} → (ℕ → Bool) → Option V → Option V → Subscriber → Type 0
Follows connects none a s = (s.mpending ≡ true) × (s.mcontrol ≡ false)
Follows connects (some v) a s =
    (s.mpending ≡ false) × (s.mcontrol ≡ connects s.id) × (s.mcontrol ≡ true → a ≡ some v)

abbrev pub NonePending : {V : Type 0} → Option V → List ℕ → Type 0
NonePending none ops = Unit
NonePending (some v) ops = ops ≡ []

abbrev pub Inv : {V : Type 0} → (ℕ → Bool) → (ℕ → Option V) → SharedPv V → Type 0
Inv connects acc p =
    Chain 0 p.msubscribers p.next_sub
    × All (λ s. Follows connects p.current (acc s.id) s) p.msubscribers
    × NonePending p.current p.pending

module _ {V : Type 0} (vs : Values V) (connects : ℕ → Bool) where
  pub connect_sub-id : (v : V) (s : Subscriber) → (connect_sub connects v s).0.id ≡ s.id
  connect_sub-id v s = ground arith

  pub connect_sub-own :
      (v : V) (n : ℕ) (a : Option V) (s : Subscriber)
      → n ≢ s.id
      → seen vs n a (connect_sub connects v s).1 ≡ a
  connect_sub-own v n a s h = ground arith

  pub connect_sub-Follows :
      (v : V) (s : Subscriber) (a : Option V)
      → Follows connects none a s
      → Follows connects
          (some v)
          (seen vs s.id a (connect_sub connects v s).1)
          (connect_sub connects v s).0
  connect_sub-Follows v s a h = ground (arith, ==_refl s.id)

  pub post_sub-own :
      (v : V) (n : ℕ) (a : Option V) (s : Subscriber) → n ≢ s.id → seen vs n a (post_sub v s).1 ≡ a
  post_sub-own v n a s h = ground arith

  pub post_sub-Follows :
      (c v : V) (s : Subscriber) (a : Option V)
      → Follows connects (some c) a s
      → Follows connects (some (vs.assign c v)) (seen vs s.id a (post_sub v s).1) s
  post_sub-Follows c v s a h = ground (arith, ==_refl s.id)
