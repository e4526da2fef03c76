-- ===== src/Framing/Conn.antt =====
-- src/conn.h, ConnBase: the state of a connection, and src/conn.cpp: its opening, its closing and
-- what it sends. `bev` is the case open of Conn; the handlers of the subclasses are a parameter.
use pvxs.Prelude.{ℕ, ◌+◌, ◌*◌, ◌%◌, ◌^◌, Bool, true, false, List, [], ◌++◌, length, if◌then◌else◌}
use pvxs.Wire.Buffer.{vector_out}
use pvxs.Wire.Header.{Header, to_wire_header}
use pvxs.Wire.Header.Flags

pub data ConnState : Type 0 where
  holdoff connecting connected disconnected : ConnState

-- What the subclasses do with the body of a message, given its command and byte order: false is a
-- connection that the handler closed, or an exception. `close` is the virtual cleanup.
pub record Handlers (H : Type 0) : Type 0 where
  pub handle : ℕ → Bool → List ℕ → H → H × Bool
  pub close : H → H

pub record Core (H : Type 0) : Type 0 where
  pub is_client : Bool
  pub send_be : Bool
  pub peer_be : Bool
  pub expect_seg : Bool
  pub peer_version : ℕ
  pub seg_cmd : ℕ
  pub seg_buf : List ℕ
  pub state : ConnState
  pub readahead : ℕ
  pub stat_tx : ℕ
  pub stat_rx : ℕ
  pub upper : H

-- The buffers of libevent: input, output, and the two watermarks for reading.
pub record Bev : Type 0 where
  pub input : List ℕ
  pub output : List ℕ
  pub low : ℕ
  pub high : ℕ

pub data Conn (H : Type 0) : Type 0 where
  open_conn : Core H → Bev → Conn H
  no_bev : Core H → Conn H

module _ {H : Type 0} where
  unfoldable pub new_core : Bool → Bool → H → Core H
  new_core is_client send_be upper = record {
    is_client = is_client;
    send_be = send_be;
    peer_be = true;
    expect_seg = false;
    peer_version = 0;
    seg_cmd = 0xff;
    seg_buf = [];
    state = holdoff;
    readahead = 0;
    stat_tx = 0;
    stat_rx = 0;
    upper = upper;
  }

  -- `connect`, with the size of the receive buffer of the socket.
  unfoldable pub connect : Core H → ℕ → Conn H
  connect c size =
      let ahead = size * 2 % 2 ^ 64 in
      open_conn
        (record c { readahead = ahead; state = if c.is_client then connecting else connected })
        (record { input = []; output = []; low = 8; high = ahead })

  pub disconnect : Conn H → Conn H
  disconnect (open_conn c b) = no_bev (record c { state = disconnected })
  disconnect (no_bev c) = no_bev (record c { state = disconnected })

  -- `bevEvent`, where one of EOF, ERROR and TIMEOUT is set, or none.
  pub bev_event : Handlers H → Bool → Conn H → Conn H
  bev_event hs true (open_conn c b) =
      no_bev (record c { state = disconnected; upper = hs.close c.upper })
  bev_event hs false (open_conn c b) = open_conn c b
  bev_event hs true (no_bev c) =
      no_bev (record c { state = disconnected; upper = hs.close c.upper })
  bev_event hs false (no_bev c) = no_bev (record c { upper = hs.close c.upper })

  -- The header of a message of that command and length.
  abbrev pub tx_header : Core H → ℕ → ℕ → Header
  tx_header c cmd len = record {
    cmd = cmd;
    flags = if c.is_client then 0 else Flags.server;
    version = 0;
    len = len % 2 ^ 32;
  }

  unfoldable pub enqueue_tx_body : Core H → Bev → ℕ → List ℕ → Core H × Bev × ℕ
  enqueue_tx_body c b cmd body =
      let n = length body in
      let h = to_wire_header (vector_out c.send_be) (tx_header c cmd n) in
      (
        record c { stat_tx = (c.stat_tx + 8 + n) % 2 ^ 64 },
        record b { output = b.output ++ (h.written ++ body) },
        8 + n,
      )
