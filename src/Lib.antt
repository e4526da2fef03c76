-- ===== src/Lib.antt =====
-- PVXS, the PV Access protocol client and server library (ISISNeutronMuon/pvxs).
--
-- The library has three layers. At the bottom are the codecs, which move numbers, sizes, strings and
-- headers between memory and a byte buffer, and the bit masks that say which fields of a structure a
-- message holds. On top of these, a connection splits the byte stream into messages and hands each
-- one to the handler of its command. The handlers keep the operations: on the server an operation
-- between a client and a PV, on the client the other end of it. A SharedPV is the PV that the library
-- brings: it keeps a value, and feeds the operations and subscriptions of its clients. A subscription (MONITOR) is the
-- operation that keeps the most state: the PV posts updates, the server queues them and sends them as
-- the client's window allows, the client queues what it receives, tells the user, and acknowledges
-- what the user takes out.
--
-- The parts, and where they are modelled:
--
--   Prelude        the names that the other files share: native numbers, lists measured by them, and
--                  the digits of a machine word (Prelude/Bits).
--   Wire           src/pvaproto.h, and VectorOutBuf::refill of src/evhelper.cpp. Buffer has the
--                  buffers: In is a FixedBuf that is read, Out a FixedBuf or a VectorOutBuf that is
--                  written. Scalar, Size, Text and Header have to_wire and from_wire for one type
--                  each; a `fault()` is the flag good, which every function tests as the source does.
--   Framing        src/conn.h and src/conn.cpp. Conn has ConnBase, connect, disconnect, bevEvent and
--                  enqueueTxBody; Read has bevRead, one function per stage of its loop (header,
--                  control message, body, segment, dispatch). Message says what a peer may send, as
--                  bytes, and what the handlers should make of it, without reference to bevRead.
--   TypeDesc       src/type.cpp, FieldDesc of src/dataimpl.h, TypeCode of src/pvxs/data.h, and to_wire and
--                  from_wire of types in src/dataencode.cpp. Code has the codes; Tree has FieldDesc,
--                  Member, build_tree and TypeDef; Decode has from_wire with its cache, Encode has to_wire and
--                  Copy copy_tree.
--                  Bytes says what a type looks like on the wire, without reference to either.
--   BitMask        src/bitmask.h and src/bitmask.cpp: words, size, resize, operator[], findSet, the
--                  constructor from bit numbers, and operator==.
--   PvRequest      src/pvrequest.cpp, which turns the fields that a client asks for into a mask, and tests
--                  updates against it. It works on the nodes of TypeDesc and on BitMask.
--   ServerMonitor  src/servermon.cpp, and ServerOp::cleanup and handle_CANCEL_REQUEST of
--                  src/serverconn.cpp. State has MonitorOp, maybeReply and cleanup; Post has
--                  ServerMonitorControl::doPost, stats and setWatermarks; Reply has doReply; Command
--                  has handle_MONITOR; Session has ServerMonitorSetup and the calls of an
--                  operation's life as one type, with `run` for one of them.
--   ServerGpr      src/serverget.cpp. State has ServerGPR with cleanup and doReply; Session has
--                  ServerGPRConnect, ServerGPRExec, handle_GPR and the work that they dispatch to the
--                  TCP worker, a list of jobs, with the calls of an operation's life as one type.
--   SharedPv       src/sharedpv.cpp. State has SharedPV with one function for each method and for each
--                  callback that attach() sets; Session has the calls as one type; Source has
--                  StaticSource.
--   ClientGpr      src/clientget.cpp, and the parts of Channel::createOperations and Channel::disconnect
--                  of src/client.cpp that act on one operation. State has GPROp with cancel, notify,
--                  sendReply, createOp and disconnected, and what a callback may do: cancel the
--                  operation, and throw; Receive has Connection::handle_GPR; Session has the builders
--                  and reExec, with the calls of an operation's life as one type.
--   ClientMonitor  src/clientmon.cpp. State has SubscriptionImpl with pause, createOp, disconnected,
--                  tickAck, cancel, pop and doPop; Receive has Connection::handle_MONITOR; Session
--                  has the calls as one type.
--   MonitorLink    src/servermon.cpp and src/clientmon.cpp: State has an operation of ServerMonitor and a
--                  subscription of ClientMonitor, with the messages on their way between them, and what
--                  Connection::handle_MONITOR reads out of each message of doReply: to_wire_valid with
--                  pvMask, from_wire_valid and cache_sync are a parameter, Transport. The connection
--                  loses nothing and keeps the order. The worker may run doReply at any time, more
--                  often than it is scheduled in the source.
--
-- State that a function changes is passed in and out; what it does outside its object (messages to
-- the peer, work dispatched to a worker, callbacks) is a list beside the state, in the order in which
-- it happens. A function of the source that holds a lock, or runs on one worker, is one step, and
-- interleavings are lists of steps. In SharedPv every method and callback is one step: an
-- operation that arrives while the PV is open is connected after the lock is released in the source,
-- and in the step in the model. Within handle_MONITOR of the server the ack, the start and the
-- destruction are one step, though the source takes the lock for each of them: no post comes between
-- them in the model. The cleanup of an operation that is destroyed is dispatched in the
-- source and runs at once in the model: a doReply that waits ahead of it stands before the message in the model. In
-- ClientGpr the prototype and the argument of an operation are two values, where the source lets them
-- share one after INIT: an assign() to the argument does not change the prototype in the model. In
-- ClientMonitor the user has set onEvent: without it, doNotify does nothing. An update is a value of any type, with the operations that the queues ask of it as
-- parameters (Post.Updates, the assign of ClientMonitor.Receive, and MonitorLink's Transport).
--
-- Bounds and fuel: a byte is a number below 256 and a word of w bits one below 2^w, with the wrap
-- written out. bevRead is a loop on fuel, one more than there
-- are bytes, since every round takes a header at least. from_wire of a type is on fuel
-- that is the depth limit of the source; to_wire of a type and copy_tree are on fuel for the levels
-- of the tree. findSet is a loop on fuel, one more than there are words, since every round goes on to
-- the next word. doPop is a loop on the room that is left,
-- which bounds the loop of the source as well. All else is by recursion on a list.
--
-- Not modelled: event loops, sockets and libevent (src/evhelper.cpp, src/os), the connections
-- above ConnBase (src/clientconn.cpp, src/serverconn.cpp; the handlers of messages are a parameter of
-- Framing), the other operations
-- (introspection, search and discovery), the Value container and the
-- encoding of values (src/data.cpp, the rest of src/dataencode.cpp), the other members of TypeDef and
-- the checks of names (the rest of src/type.cpp), the codecs of arrays and of bit masks, the
-- bindings to an IOC (ioc), the tools and the tests. In bevRead the bytes that
-- remain are those of the input: a body of 2^32 - 8 bytes or more in the input, which the high
-- watermark keeps out, would make the source's count wrap. The free list of the client's Values, the
-- statistics of channels and the log output have no effect on what is modelled.
pub mod BitMask
pub mod ClientGpr
pub mod ClientMonitor
pub mod Framing
pub mod MonitorLink
pub mod Prelude
pub mod PvRequest
pub mod ServerGpr
pub mod ServerMonitor
pub mod SharedPv
pub mod TypeDesc
pub mod Wire
