-- ===== src/Lib.antt =====
-- A verification library for the client in this repository: models of the parts that carry its logic, and the
-- theorems that make them correct.
--
-- The parts, and how they meet. Bytes from a server reach the parser (core/src/parser.ts), which pushes events to
-- the protocol handler. Messages go on to the queued iterator of a subscription (core/src/queued_iterator.ts) or to a
-- request (core/src/request.ts). What the client writes waits in a data buffer (core/src/databuffer.ts). Two timers
-- watch a connection and a consumer (core/src/heartbeats.ts, core/src/idleheartbeat_monitor.ts). The version of the
-- server decides what is used of it (core/src/semver.ts); keys of a key-value store are checked and coded before they
-- are made into subjects (kv/src/kv.ts); the pool of servers says which one to dial (core/src/servers.ts).
--
-- Base: the shared names: tests on native numbers, lists, signed numbers, strings.
-- Parser: Defs has the state of the class Parser, Args the readers of argument lines (processMsgArgs,
--   processHeaderMsgArgs, protoParseInt), Step one turn of the loop of parse with a function per kind of state, Loop
--   the method parse and what it keeps between buffers. Wire is an independent parser that reads byte by byte and has
--   no indices; Simulation, Rounds, Jumps, Refinement, Running, Settling and Chunks relate the two. Ops is the grammar of
--   a server's operations. The fuel of loop is one unit per byte and one more: the index never moves back, so that
--   this is enough.
-- Buffers.DataBuffer: the class DataBuffer; Copying has the copies of pack and concat, Contents and Ends relate it to
--   the bytes that it holds. A `set` that does not fit is an error in the source, which a right byte count rules out.
-- Iterator: QueuedIteratorImpl. Step cuts the generator iterate at its yields and awaits; rounds is its outer loop on
--   fuel, of which two units are enough for a call of next, because a callback of the model pushes nothing.
-- Timers.Heartbeat, Timers.IdleMonitor: the classes Heartbeat and IdleHeartbeatMonitor, with the clock as an argument.
-- Requests: Enders has the timers and the check that end a request many, Many the classes RequestManyEnd and
--   RequestMany with the steps that may happen to them.
-- Features: SemVer has parseSemVer and compare, Table the class Features, Changes and Support what calls make of it.
-- Keys: the validation of keys and buckets, wildcards, and Base64KeyCodec with btoa and atob as parameters.
-- Pool: the class Servers, without what reads URLs.
-- Acks: the acknowledgements of JsMsgImpl (jetstream/src/jsmsg.ts); what JSON.stringify makes is a parameter.
-- Mux: MuxSubscription (core/src/muxsubscription.ts), with the name of the inbox as a parameter.
-- Headers: Names has what may stand in a name or a value, Table the class MsgHdrsImpl (core/src/headers.ts), Wire its
--   toString and decode on texts, Equal its equals; the other modules are about what is kept in the table and about
--   the way from headers to their text and back.
-- Dial: dodialLoop (core/src/protocol.ts), turn by turn. What a dial comes to, the user's handlers, the time and what
--   the infos of a handshake make of the pool are given with each turn. Its fuel is the number of turns; Ending says
--   how many are enough.
-- Protocol: of ProtocolHandler (core/src/protocol.ts), Outbound has what is written (sendCommand, flushPending, flush,
--   the pongs), Publish has publish and traceHeaders, Subscriptions the classes SubscriptionImpl and Subscriptions and
--   what is done with them, Failures the errors of a server, with the parse of each class (core/src/errors.ts),
--   Permissions what a permission violation does to subscriptions; the encoding of texts is a parameter. The other
--   modules prove what is below.
-- Tests: runs on concrete inputs.
--
-- Strings are lists of code units, a Uint8Array is the list of its bytes, and a thrown error is a value. Numbers are
-- natural; where the source uses -1 they are signed.
--
-- Not modelled: sockets and transports, which are I/O; of the protocol handler, closing, draining and the handshake;
--   jetstream but for acknowledgements, the object store and the services; signatures and random identifiers, which
--   are other packages; DenoBuffer and the reader of IP addresses, which are ports of other projects.
pub mod Base
pub mod Parser
pub mod Buffers
pub mod Iterator
pub mod Timers
pub mod Features
pub mod Requests
pub mod Keys
pub mod Pool
pub mod Acks
pub mod Mux
pub mod Headers
pub mod Dial
pub mod Protocol
pub mod Tests
