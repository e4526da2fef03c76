-- ===== src/Wire/Laws.antt =====
-- How a write extends a buffer, and how writes compose.
use mathlib.Core.List.{append_assoc, append-nil}
use pvxs.Prelude.{
  ℕ, ◌+◌, ◌≤◌, ◌≡◌, refl, sym, ◌∙◌, ◌⊎◌, inr, true, List, [], ◌++◌, arith, length, length-append,
}
use pvxs.Wire.Buffer.{Out, copy, ensure, put_bytes}

-- There is room for n more bytes, or the buffer grows.
abbrev pub Fits : Out → ℕ → Type 0
Fits b n = (b.grows ≡ true) ⊎ (n ≤ b.room)

-- `c` is `b` with the bytes written behind, and no fault.
pub record Writes (b c : Out) (bs : List ℕ) : Type 0 where
  pub is_good : c.good ≡ true
  pub appended : c.written ≡ b.written ++ bs
  pub same_order : c.be ≡ b.be
  pub same_kind : c.grows ≡ b.grows
  pub taken : (b.grows ≡ true) ⊎ (c.room + length bs ≡ b.room)

pub put_bytes-Writes :
    (b : Out) (bs : List ℕ) → b.good ≡ true → Fits b (length bs) → Writes b (put_bytes b bs) bs
unfolding put_bytes
put_bytes-Writes b bs g f = record {
  is_good = ground arith;
  appended = ground arith;
  same_order = ground arith;
  same_kind = ground arith;
  taken = ground arith;
}

pub Writes-nil : (b : Out) → b.good ≡ true → Writes b b []
Writes-nil b g = record {
  is_good = g;
  appended = sym (append-nil _);
  same_order = refl;
  same_kind = refl;
  taken = inr (omega arith);
}

pub Writes-Fits :
    {b c : Out} {bs : List ℕ} (n : ℕ) → Writes b c bs → Fits b (length bs + n) → Fits c n
Writes-Fits n w f = ground (arith, w.taken, w.same_kind)

pub Fits-left : (b : Out) (m n : ℕ) → Fits b (m + n) → Fits b m
Fits-left b m n f = ground arith

pub Writes-trans :
    {b c d : Out} {bs cs : List ℕ} → Writes b c bs → Writes c d cs → Writes b d (bs ++ cs)
Writes-trans {bs} {cs} w v = record {
  is_good = v.is_good;
  appended = v.appended ∙ rw w.appended (append_assoc _ bs cs);
  same_order = v.same_order ∙ w.same_order;
  same_kind = v.same_kind ∙ w.same_kind;
  taken = ground (arith, length-append bs cs, w.taken, v.taken, w.same_kind);
}

-- `c` is `b` with room for n bytes ensured.
pub record Ensured (b c : Out) (n : ℕ) : Type 0 where
  pub is_good : c.good ≡ true
  pub same_written : c.written ≡ b.written
  pub same_order : c.be ≡ b.be
  pub same_kind : c.grows ≡ b.grows
  pub enough : n ≤ c.room
  pub kept : (b.grows ≡ true) ⊎ (c.room ≡ b.room)

pub ensure-Ensured :
    (b : Out) (n : ℕ)
    → b.good ≡ true
    → Fits b n
    → ((ensure b n).1 ≡ true) × Ensured b (ensure b n).0 n
unfolding ensure
ensure-Ensured b n g f = (
  ground arith,
  record {
    is_good = ground arith;
    same_written = ground arith;
    same_order = ground arith;
    same_kind = ground arith;
    enough = ground arith;
    kept = ground arith;
  },
)

pub copy-Writes : {b c : Out} (bs : List ℕ) → Ensured b c (length bs) → Writes b (copy c bs) bs
copy-Writes bs e = record {
  is_good = e.is_good;
  appended = rw e.same_written refl;
  same_order = e.same_order;
  same_kind = e.same_kind;
  taken = ground (arith, e.kept, e.enough);
}

pub Ensured-le : {b c : Out} {n : ℕ} (m : ℕ) → m ≤ n → Ensured b c n → Ensured b c m
Ensured-le m h e = record {
  is_good = e.is_good;
  same_written = e.same_written;
  same_order = e.same_order;
  same_kind = e.same_kind;
  enough = omega (arith, e.enough);
  kept = e.kept;
}
