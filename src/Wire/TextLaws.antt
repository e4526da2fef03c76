-- ===== src/Wire/TextLaws.antt =====
-- What strings and `Status` write, and that they are read back.
use mathlib.Core.List.{append_assoc}
use pvxs.Prelude.{
  ℕ, ◌≤◌, ◌+◌, ◌≡◌, ◌≢◌, refl, subst, ◌∙◌, inl, inr, Bool, true, ◌&&◌, List, [], ◌∷◌, ◌++◌, arith,
  ◌==◌, length, length-append, take-append, drop-append, All, if◌then◌else◌, Bool-cases,
}
use pvxs.Wire.Buffer.{Out, fixed_in, ensure, copy}
use pvxs.Wire.Laws.{
  Fits, Writes, Ensured, ensure-Ensured, copy-Writes, Writes-trans, Writes-Fits, Fits-left,
}
use pvxs.Wire.Size.{to_wire_size}
use pvxs.Wire.SizeLaws.{size_bytes, to_wire_size-Writes, from_wire_size-size_bytes}
use pvxs.Wire.Text.{
  Status, status_ok, is_empty, c_str, to_wire_str, from_wire_str, to_wire_status, from_wire_status,
  from_wire_status_rest,
}

abbrev pub str_bytes : Bool → List ℕ → List ℕ
str_bytes be s = size_bytes be (length s) ++ s

abbrev pub IsShort : List ℕ → Type 0
IsShort s = length s ≤ 0xffff_ffff

pub to_wire_str-Writes :
    (b : Out) (be : Bool) (s : List ℕ)
    → IsShort s
    → b.good ≡ true
    → b.be ≡ be
    → Fits b (length (str_bytes be s))
    → Writes b (to_wire_str b s) (str_bytes be s)
unfolding to_wire_str
to_wire_str-Writes b be s h g o f =
    subst (λ x. Writes b (to_wire_str b s) (str_bytes x s)) o (Writes-trans head (rw enough body))
  where
    fits : Fits b (length (size_bytes b.be (length s)) + length s)
    fits = rw (length-append, ← o) at f

    head : Writes b (to_wire_size b (length s)) (size_bytes b.be (length s))
    head = to_wire_size-Writes b (length s) h g (Fits-left b _ _ fits)

    ensured :
        ((ensure (to_wire_size b (length s)) (length s)).1 ≡ true)
        × Ensured
            (to_wire_size b (length s))
            (ensure (to_wire_size b (length s)) (length s)).0
            (length s)
    ensured = ensure-Ensured _ (length s) head.is_good (Writes-Fits (length s) head fits)

    enough : (ensure (to_wire_size b (length s)) (length s)).1 ≡ true
    enough = ensured.0

    body :
        Writes
          (to_wire_size b (length s))
          (copy (ensure (to_wire_size b (length s)) (length s)).0 s)
          s
    body = copy-Writes s ensured.1

pub from_wire_str-str_bytes :
    (be : Bool) (old s rest : List ℕ)
    → IsShort s
    → from_wire_str old (fixed_in be (str_bytes be s ++ rest)) ≡ (s, fixed_in be rest)
unfolding from_wire_str
from_wire_str-str_bytes be old s rest h =
    rw (append_assoc, from_wire_size-size_bytes be true 0 (length s) (s ++ rest) h)
      (ground (
        arith,
        length-append s rest,
        take-append (length s) s rest refl,
        drop-append (length s) s rest refl,
      ))

abbrev pub HasNoZero : List ℕ → Type 0
HasNoZero = All (λ c. c ≢ 0)

c_str_id : (s : List ℕ) → HasNoZero s → c_str s ≡ s
unfolding c_str
c_str_id [] h = refl
c_str_id (c ∷ s) h = ground (arith, c_str_id s h.1, h.0)

-- A status that the protocol can carry: one of the four codes, and texts that C strings can hold.
pub record IsSendable (s : Status) : Type 0 where
  pub code_known : s.code ≤ 3
  pub msg_short : IsShort s.msg
  pub msg_text : HasNoZero s.msg
  pub trace_short : IsShort s.trace
  pub trace_text : HasNoZero s.trace

abbrev pub is_plain : Status → Bool
is_plain s = s.code == 0 && is_empty s.msg && is_empty s.trace

abbrev pub status_bytes : Bool → Status → List ℕ
status_bytes be s =
    if is_plain s then 255 ∷ [] else (s.code ∷ []) ++ (str_bytes be s.msg ++ str_bytes be s.trace)

texts-Writes :
    (msg trace : List ℕ) {b c : Out} {head : List ℕ}
    → Writes b c head
    → IsShort msg
    → IsShort trace
    → Fits b (length head + (length (str_bytes b.be msg) + length (str_bytes b.be trace)))
    → Writes b
        (to_wire_str (to_wire_str c msg) trace)
        (head ++ (str_bytes b.be msg ++ str_bytes b.be trace))
texts-Writes msg trace {b} {c} {head} w hm ht f =
    let room = Writes-Fits (length (str_bytes b.be msg) + length (str_bytes b.be trace)) w f in
    let first = to_wire_str-Writes c b.be msg hm w.is_good w.same_order (Fits-left c _ _ room) in
    let second =
      to_wire_str-Writes (to_wire_str c msg) b.be trace ht first.is_good
        (first.same_order ∙ w.same_order) (Writes-Fits _ first room) in
    Writes-trans w (Writes-trans first second)

pub to_wire_status-Writes :
    (b : Out) (s : Status)
    → IsSendable s
    → b.good ≡ true
    → Fits b (length (status_bytes b.be s))
    → Writes b (to_wire_status b s) (status_bytes b.be s)
unfolding to_wire_status
to_wire_status-Writes b s h g f = elim (Bool-cases (is_plain s)) [
  | inl plain ↦
      let (enough, e) = ensure-Ensured b 1 g (rw plain at f) in
      rw (plain, enough) (copy-Writes (255 ∷ []) e)
  | inr full ↦
      let fits : Fits b (1 + (length (str_bytes b.be s.msg) + length (str_bytes b.be s.trace))) =
        rw (full, length-append, length-append) at f in
      let (enough, e) = ensure-Ensured b 1 g (Fits-left b 1 _ fits) in
      rw (full, enough, c_str_id s.msg h.msg_text, c_str_id s.trace h.trace_text)
        (texts-Writes s.msg s.trace (copy-Writes (s.code ∷ []) e) h.msg_short h.trace_short fits)
]

is_empty_eq : (s : List ℕ) → is_empty s ≡ true → s ≡ []
is_empty_eq [] h = refl
is_empty_eq (c ∷ s) h = cc

is_plain_eq : (s : Status) → is_plain s ≡ true → s ≡ status_ok
is_plain_eq s h = ground (arith, is_empty_eq s.msg, is_empty_eq s.trace)

status_fields :
    (be : Bool) (old s : Status) (rest : List ℕ)
    → IsSendable s
    → from_wire_status_rest old s.code
        (fixed_in be (str_bytes be s.msg ++ (str_bytes be s.trace ++ rest)))
      ≡ (s, fixed_in be rest)
unfolding from_wire_status_rest
status_fields be old s rest h =
    rw
      (
        from_wire_str-str_bytes be old.msg s.msg (str_bytes be s.trace ++ rest) h.msg_short,
        from_wire_str-str_bytes be old.trace s.trace rest h.trace_short,
      )
      (ground (arith, h.code_known))

pub from_wire_status-status_bytes :
    (be : Bool) (old s : Status) (rest : List ℕ)
    → IsSendable s
    → from_wire_status old (fixed_in be (status_bytes be s ++ rest)) ≡ (s, fixed_in be rest)
unfolding from_wire_status
from_wire_status-status_bytes be old s rest h = elim (Bool-cases (is_plain s)) [
  | inl plain ↦ rw (plain, is_plain_eq s plain) (ground arith)
  | inr full ↦ rw (full, append_assoc) (ground (arith, status_fields be old s rest h, h.code_known))
]
