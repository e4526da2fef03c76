-- ===== src/Framing/Message.antt =====
-- The messages of a peer, whole or cut into segments, as bytes, and what the handlers should see.
use pvxs.Prelude.{
  ℕ, ◌+◌, ◌-◌, ◌<◌, ◌^◌, Bool, true, false, List, [], ◌∷◌, ◌++◌, length, if◌then◌else◌,
}
use pvxs.Wire.Header.{Header}
use pvxs.Wire.Header.Flags
use pvxs.Wire.HeaderLaws.{header_bytes}
use pvxs.Framing.Conn.{Handlers}
use pvxs.Framing.Read.{known}

-- The place of a segment in its message.
pub data Place : Type 0 where
  only front middle back : Place

abbrev pub place_bits : Place → ℕ
place_bits only = 0
place_bits front = Flags.seg_first
place_bits middle = Flags.seg_mask
place_bits back = Flags.seg_last

abbrev pub place_flags : Bool → Place → ℕ
place_flags true p = Flags.server + place_bits p
place_flags false p = place_bits p

abbrev pub frame_header : Bool → Place → ℕ → ℕ → Header
frame_header from_server p cmd len = record {
  cmd = cmd;
  flags = place_flags from_server p;
  version = 0;
  len = len;
}

abbrev pub frame : Bool → Bool → Place → ℕ → List ℕ → List ℕ
frame from_server be p cmd body =
    header_bytes be (frame_header from_server p cmd (length body)) ++ body

-- A message is cut into a first piece and others; with no others it is not segmented.
pub record Message : Type 0 where
  pub be : Bool
  pub cmd : ℕ
  pub first : List ℕ
  pub others : List (List ℕ)

abbrev pub concat : List (List ℕ) → List ℕ
concat [] = []
concat (x ∷ xs) = x ++ concat xs

abbrev pub message_body : Message → List ℕ
message_body m = m.first ++ concat m.others

abbrev pub back_bytes : Bool → Bool → ℕ → List ℕ → List (List ℕ) → List ℕ
back_bytes srv be cmd x [] = frame srv be back cmd x
back_bytes srv be cmd x (y ∷ ys) = frame srv be middle cmd x ++ back_bytes srv be cmd y ys

abbrev pub cut_bytes : Bool → Bool → ℕ → List ℕ → List (List ℕ) → List ℕ
cut_bytes srv be cmd x [] = frame srv be only cmd x
cut_bytes srv be cmd x (y ∷ ys) = frame srv be front cmd x ++ back_bytes srv be cmd y ys

-- What a peer sends, a server or a client.
abbrev pub stream_bytes : Bool → List Message → List ℕ
stream_bytes srv [] = []
stream_bytes srv (m ∷ ms) = cut_bytes srv m.be m.cmd m.first m.others ++ stream_bytes srv ms

abbrev pub AreShort : List (List ℕ) → Type 0
AreShort [] = Unit
AreShort (x ∷ xs) = (length x < 2 ^ 32 - 8) × AreShort xs

-- The length of each piece and its header fits 32 bits.
abbrev pub IsStream : List Message → Type 0
IsStream [] = Unit
IsStream (m ∷ ms) = (length m.first < 2 ^ 32 - 8) × AreShort m.others × IsStream ms

module _ {H : Type 0} (hs : Handlers H) where
  -- One message for the handlers; `rest` is what the messages after it do.
  abbrev pub deliver : ℕ → Bool → List ℕ → H → (H → H) → H
  deliver cmd be body u rest =
      if known cmd
      then (let r = hs.handle cmd be body u in if r.1 then rest r.0 else hs.close r.0)
      else rest u

  -- The messages in order, until a handler gives the connection up.
  abbrev pub handled : List Message → H → H
  handled [] u = u
  handled (m ∷ ms) u = deliver m.cmd m.be (message_body m) u (handled ms)
