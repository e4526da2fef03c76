-- ===== src/Wire/RoundTrip.antt =====
-- src/pvaproto.h: scalars, sizes, selectors, strings, status and headers, written and read.
use pvxs.Prelude.Int.{ℤ}
use pvxs.Prelude.{ℕ, ◌≤◌, ◌<◌, ◌^◌, ◌≡◌, refl, inl, Bool, true, List, ◌++◌}
use pvxs.Wire.Buffer.{In, Out, fixed_in, vector_out}
use pvxs.Wire.Laws.{Writes}
use pvxs.Wire.Scalar.{to_wire, from_wire, wire_bytes}
use pvxs.Wire.ScalarLaws.{to_wire-Writes, from_wire-wire_bytes}
use pvxs.Wire.Size.{to_wire_size, from_wire_size, to_wire_selector, from_wire_selector}
use pvxs.Wire.SizeLaws.{
  IsSelector, to_wire_size-Writes, from_wire_size-size_bytes, to_wire_selector-Writes,
  from_wire_selector-selector_bytes,
}
use pvxs.Wire.Text.{Status, to_wire_str, from_wire_str, to_wire_status, from_wire_status}
use pvxs.Wire.TextLaws.{
  IsShort, IsSendable, to_wire_str-Writes, from_wire_str-str_bytes, to_wire_status-Writes,
  from_wire_status-status_bytes,
}
use pvxs.Wire.Header.{Header, header_flags, header_version, to_wire_header, from_wire_header}
use pvxs.Wire.HeaderLaws.{OrderFree, to_wire_header-Writes, from_wire_header-header_bytes}

-- A buffer was written with no fault, and reading its bytes from `expected` order gives the value.
abbrev pub ReadsBack : {A : Type 0} → Bool → Out → (In → A × In) → A → Type 0
ReadsBack expected b read v =
    (b.good ≡ true)
    × ((rest : List ℕ) → read (fixed_in expected (b.written ++ rest)) ≡ (v, fixed_in b.be rest))

reads_back :
    {A : Type 0} (be expected : Bool) {b : Out} (bs : List ℕ) (read : In → A × In) (v : A)
    → Writes (vector_out be) b bs
    → ((rest : List ℕ) → read (fixed_in expected (bs ++ rest)) ≡ (v, fixed_in be rest))
    → ReadsBack expected b read v
reads_back be expected bs read v w e = (w.is_good, λ rest. rw (w.appended, w.same_order) (e rest))

-- A scalar of n bytes, written on a host of either byte order to a buffer of either byte order, is
-- read back on a host of either byte order, with what follows it left in place.
pub from_wire-to_wire :
    (writer reader be : Bool) (n old v : ℕ)
    → v < 256 ^ n
    → ReadsBack be (to_wire writer n (vector_out be) v) (from_wire reader n old) v
from_wire-to_wire writer reader be n old v h =
    reads_back be be (wire_bytes be n v) (from_wire reader n old) v
      (to_wire-Writes writer n (vector_out be) be v refl refl (inl refl))
      (λ rest. from_wire-wire_bytes reader be n old v rest h)

-- A size of at most 2^32 - 1 is written with no fault and read back, whether or not the reader
-- allows null.
pub from_wire_size-to_wire_size :
    (be allow_null : Bool) (old n : ℕ)
    → n ≤ 0xffff_ffff
    → ReadsBack be (to_wire_size (vector_out be) n) (from_wire_size allow_null old) n
from_wire_size-to_wire_size be allow_null old n h =
    reads_back be be _ (from_wire_size allow_null old) n
      (to_wire_size-Writes (vector_out be) n h refl (inl refl))
      (λ rest. from_wire_size-size_bytes be allow_null old n rest h)

-- A selector, -1 or an index of at most 2^32 - 1, is written with no fault and read back.
pub from_wire_selector-to_wire_selector :
    (be : Bool) (old sel : ℤ)
    → IsSelector sel
    → ReadsBack be (to_wire_selector (vector_out be) sel) (from_wire_selector old) sel
from_wire_selector-to_wire_selector be old sel h =
    reads_back be be _ (from_wire_selector old) sel
      (to_wire_selector-Writes (vector_out be) sel h refl (inl refl))
      (λ rest. from_wire_selector-selector_bytes be old sel rest h)

-- A string of at most 2^32 - 1 bytes is written with no fault and read back.
pub from_wire_str-to_wire_str :
    (be : Bool) (old s : List ℕ)
    → IsShort s
    → ReadsBack be (to_wire_str (vector_out be) s) (from_wire_str old) s
from_wire_str-to_wire_str be old s h =
    reads_back be be _ (from_wire_str old) s
      (to_wire_str-Writes (vector_out be) be s h refl refl (inl refl))
      (λ rest. from_wire_str-str_bytes be old s rest h)

-- A status with one of the four codes and with short texts that hold no zero byte is written with
-- no fault and read back.
pub from_wire_status-to_wire_status :
    (be : Bool) (old s : Status)
    → IsSendable s
    → ReadsBack be (to_wire_status (vector_out be) s) (from_wire_status old) s
from_wire_status-to_wire_status be old s h =
    reads_back be be _ (from_wire_status old) s
      (to_wire_status-Writes (vector_out be) s h refl (inl refl))
      (λ rest. from_wire_status-status_bytes be old s rest h)

-- A header with the byte order flag left to the writer is read back by a reader that expects
-- either byte order; the reader learns the writer's order and version.
pub from_wire_header-to_wire_header :
    (be expected : Bool) (old h : Header)
    → OrderFree h.flags
    → h.len < 2 ^ 32
    → ReadsBack expected
        (to_wire_header (vector_out be) h)
        (from_wire_header old)
        (record h { flags = header_flags be h.flags; version = header_version h.flags })
from_wire_header-to_wire_header be expected old h free short =
    reads_back be expected _ (from_wire_header old) _
      (to_wire_header-Writes (vector_out be) h refl (inl refl))
      (λ rest. from_wire_header-header_bytes be expected old h rest free short)
