-- ===== src/Wire/Text.antt =====
-- src/pvaproto.h: strings and `Status`. A string is the list of its bytes.
use pvxs.Prelude.{
  ℕ, Bool, true, false, ◌&&◌, List, [], ◌∷◌, ltb, ◌==◌, length, take, drop, get_or, if◌then◌else◌,
}
use pvxs.Wire.Buffer.{Out, Read, pure, ◌>>=◌, in_ensure, in_fault, ensure, out_fault, copy}
use pvxs.Wire.Size.{size_max, push, pop, to_wire_size, from_wire_size}

-- `to_wire_str`: the size, and then the bytes.
unfoldable pub to_wire_str : Out → List ℕ → Out
to_wire_str b s =
    let b1 = to_wire_size b (length s) in
    let (b', enough) = ensure b1 (length s) in if enough then copy b' s else out_fault b'

from_wire_str_rest : List ℕ → ℕ → Read (List ℕ)
from_wire_str_rest old len b =
    if len == size_max
    then ([], b)
    else (if in_ensure b len
        then (take len b.bytes, record b { bytes = drop len b.bytes })
        else (old, in_fault b))

unfoldable pub from_wire_str : List ℕ → Read (List ℕ)
unfolding from_wire_str_rest
from_wire_str old = do len ← from_wire_size true 0; from_wire_str_rest old len

-- What `s.c_str()` shows to `strlen`: the bytes before the first zero.
unfoldable pub c_str : List ℕ → List ℕ
c_str [] = []
c_str (c ∷ s) = if c == 0 then [] else c ∷ c_str s

pub record Status : Type 0 where
  pub code : ℕ
  pub msg : List ℕ
  pub trace : List ℕ

abbrev pub status_ok : Status
status_ok = record { code = 0; msg = []; trace = [] }

abbrev pub is_empty : List ℕ → Bool
is_empty [] = true
is_empty (c ∷ s) = false

-- `isSuccess`: Ok or Warn.
pub is_success : Status → Bool
is_success s = ltb s.code 2

unfoldable pub to_wire_status : Out → Status → Out
to_wire_status b sts =
    let (b', enough) = ensure b 1 in
    if enough
    then (if sts.code == 0 && is_empty sts.msg && is_empty sts.trace
        then push b' 255
        else to_wire_str (to_wire_str (push b' sts.code) (c_str sts.msg)) (c_str sts.trace))
    else out_fault b'

-- `Status::type_t(buf.pop())`, and anything past Fatal is Fatal.
abbrev pub clamp_code : ℕ → ℕ
clamp_code c = if ltb 3 c then 3 else c

unfoldable pub from_wire_status_rest : Status → ℕ → Read Status
from_wire_status_rest old c = do
  msg ← from_wire_str old.msg
  trace ← from_wire_str old.trace
  pure (record { code = clamp_code c; msg = msg; trace = trace })

unfoldable pub from_wire_status : Status → Read Status
from_wire_status old b =
    if in_ensure b 1
    then (if get_or b.bytes 0 0 == 255
        then (status_ok, record b { bytes = drop 1 b.bytes })
        else (pop >>= from_wire_status_rest old) b)
    else (old, in_fault b)
