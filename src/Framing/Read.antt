-- ===== src/Framing/Read.antt =====
-- src/conn.cpp, `ConnBase::bevRead`.
use Prim.Native.Nat.{bit_and}
use pvxs.Prelude.{
  ℕ, zero, suc, ◌+◌, ◌-◌, ◌%◌, ◌^◌, Bool, true, false, not, xor, ◌&&◌, ◌||◌, Option, none, some,
  List, [], ◌++◌, ltb, leb, ◌==◌, length, get_or, take, drop, if◌then◌else◌,
}
use pvxs.Wire.Buffer.{fixed_in}
use pvxs.Wire.Scalar.{from_wire_u32}
use pvxs.Wire.Header.{has}
use pvxs.Wire.Header.Flags
use pvxs.Framing.Conn.{Core, Bev, Conn, open_conn, no_bev, Handlers}

-- What one message of the input comes to: the loop goes on behind it, or stops to wait with new
-- watermarks, or the connection is dropped.
pub data Step (H : Type 0) : Type 0 where
  going : Core H → List ℕ → Step H
  waiting : Core H → ℕ → ℕ → Step H
  dropped : Core H → Step H

-- The commands that the switch names.
unfoldable pub known : ℕ → Bool
known cmd =
    cmd == 1
    || cmd == 2
    || cmd == 3
    || cmd == 4
    || cmd == 5
    || cmd == 7
    || cmd == 8
    || cmd == 9
    || cmd == 10
    || cmd == 11
    || cmd == 12
    || cmd == 13
    || cmd == 15
    || cmd == 17
    || cmd == 18
    || cmd == 20
    || cmd == 21

abbrev pub set_endian : ℕ
set_endian = 2

-- The fields of the header at the front of the input.
abbrev pub flags_of : List ℕ → ℕ
flags_of rx = get_or rx 2 0

abbrev pub cmd_of : List ℕ → ℕ
cmd_of rx = get_or rx 3 0

abbrev pub body_length : List ℕ → ℕ
body_length rx = (from_wire_u32 0 (fixed_in (has (flags_of rx) Flags.msb) (take 4 (drop 4 rx)))).0

abbrev pub whole : ℕ → Bool
whole flags = bit_and flags Flags.seg_mask == 0

-- `8 + len` in the 32 bits of len.
abbrev pub with_header : ℕ → ℕ
with_header len = (8 + len) % 2 ^ 32

-- The loop's body is a function of the core and of the input, with a header in it at least.
module _ {H : Type 0} where
  abbrev pub bad_header : Core H → List ℕ → Bool
  bad_header c rx =
      not (get_or rx 0 0 == 0xca)
      || get_or rx 1 0 == 0
      || xor c.is_client (has (flags_of rx) Flags.server)

  abbrev pub control_message : Core H → List ℕ → Core H
  control_message c rx = record c {
    send_be = if cmd_of rx == set_endian then has (flags_of rx) Flags.msb else c.send_be;
    stat_rx = (c.stat_rx + 8) % 2 ^ 64;
  }

  abbrev pub app_header : Core H → List ℕ → Core H
  app_header c rx = record c { peer_be = has (flags_of rx) Flags.msb; peer_version = get_or rx 1 0 }

  abbrev pub high_mark : Core H → ℕ → ℕ
  high_mark c len =
      if ltb (with_header len) (2 ^ 64 - 1 - c.readahead)
      then with_header len + c.readahead
      else with_header len

  abbrev pub start_message : Core H → ℕ → ℕ → Core H
  start_message c flags cmd =
      if whole flags || bit_and flags Flags.seg_mask == Flags.seg_first
      then record c { expect_seg = true; seg_cmd = cmd }
      else c

  abbrev pub take_body : Core H → List ℕ → ℕ → Core H
  take_body c rx len = record c {
    seg_buf = c.seg_buf ++ take len (drop 8 rx);
    stat_rx = (c.stat_rx + with_header len) % 2 ^ 64;
  }

  abbrev pub keep : Core H → List ℕ → List ℕ → ℕ → ℕ → Conn H
  keep c rx out low high = open_conn c (record { input = rx; output = out; low = low; high = high })

module _ {H : Type 0} (hs : Handlers H) where
  -- A whole message stands in segBuf.
  unfoldable pub dispatch : Core H → List ℕ → Step H
  unfolding known
  dispatch c rx =
      let c1 = record c { expect_seg = false } in
      if known c.seg_cmd
      then (let r = hs.handle c.seg_cmd c.peer_be c.seg_buf c.upper in
          if r.1
          then going (record c1 { upper = r.0; seg_buf = [] }) rx
          else dropped (record c1 { upper = r.0 }))
      else going (record c1 { seg_buf = [] }) rx

  -- After the body was moved to segBuf.
  unfoldable pub segment : Core H → ℕ → ℕ → List ℕ → Step H
  unfolding dispatch
  segment c flags cmd rx =
      let continuation = has flags Flags.seg_last in
      if xor continuation c.expect_seg || (continuation && not (cmd == c.seg_cmd))
      then dropped c
      else (let c1 = start_message c flags cmd in
          if whole flags || bit_and flags Flags.seg_mask == Flags.seg_last
          then dispatch c1 rx
          else going c1 rx)

  unfoldable pub app_message : Core H → List ℕ → ℕ → Step H
  unfolding segment
  app_message c rx len =
      if ltb (length rx - 8) len
      then waiting (app_header c rx) (with_header len) (high_mark c len)
      else segment (take_body (app_header c rx) rx len) (flags_of rx) (cmd_of rx)
          (drop len (drop 8 rx))

  unfoldable pub step : Core H → List ℕ → Step H
  unfolding app_message
  step c rx =
      if bad_header c rx
      then dropped c
      else (if has (flags_of rx) Flags.control
          then going (control_message c rx) (drop 8 rx)
          else app_message c rx (body_length rx))

  abbrev pub hang_up : Core H → Conn H
  hang_up c = no_bev (record c { upper = hs.close c.upper })

  -- After one message, where `loop` is the rest of the loop.
  abbrev pub next : (Core H → List ℕ → Option (Conn H)) → List ℕ → List ℕ → Step H → Option (Conn H)
  next loop rx out (going c' rx') = loop c' rx'
  next loop rx out (waiting c' low high) = some (keep c' rx out low high)
  next loop rx out (dropped c') = some (hang_up c')

  -- The loop on fuel; `none` is out of fuel. The output is left alone.
  unfoldable pub read_loop : ℕ → List ℕ → Core H → List ℕ → Option (Conn H)
  unfolding step
  read_loop zero out c rx = none
  read_loop (suc fuel) out c rx =
      let more = next (read_loop fuel out) rx out (step c rx) in
      if leb 8 (length rx) then more else some (keep c rx out 8 c.readahead)

  -- Each round takes a header at least, so as many rounds as there are bytes are enough.
  unfoldable pub bev_read : Core H → Bev → Option (Conn H)
  unfolding read_loop
  bev_read c b = read_loop (suc (length b.input)) b.output c b.input

  -- Bytes arrive, and `bevRead` is called.
  unfoldable pub receive : Conn H → List ℕ → Option (Conn H)
  unfolding bev_read
  receive (no_bev c) bytes = some (no_bev c)
  receive (open_conn c b) bytes = bev_read c (record b { input = b.input ++ bytes })
