-- ===== src/Protocol/Outbound.antt =====
-- What the protocol handler of core/src/protocol.ts writes: commands wait in a data buffer, pings for their pongs.
use nats_js.Base.{
  ℕ, suc, ◌-◌, Bool, true, false, not, ◌||◌, Option, none, some, List, [], ◌∷◌, ◌++◌, map, leb,
  ◌==◌, if◌then◌else◌, Bytes, codes, length,
}
use nats_js.Buffers.DataBuffer.{DataBuffer, new_data_buffer, fill, drain, size, reset}

-- What is handed to the transport: drained from the buffer, or sent past it.
pub data Sent : Type 0 where
  buffered : Bytes → Sent
  direct : Bytes → Sent

-- A deferred that has left the queue of pongs, and what was called on it then; if it was settled before, that changes
-- nothing.
pub data Settled : Type 0 where
  resolved : ℕ → Settled
  rejected : ℕ → Settled

-- `microtasks` counts the flushes that are queued; deferreds are numbers. `connect_error` is the pong of a handshake,
-- which `connectError` rejects; `early` are the deferreds that were settled from outside, in their place in the queue.
pub record Link : Type 0 where
  pub connected : Bool
  pub info_received : Bool
  pub outbound : DataBuffer
  pub pending_limit : ℕ
  pub microtasks : ℕ
  pub sent : List Sent
  pub pongs : List ℕ
  pub settled : List Settled
  pub connect_error : Option ℕ
  pub early : List ℕ

abbrev pub ping_cmd : Bytes
ping_cmd = codes "PING\r\n"

abbrev pub pong_cmd : Bytes
pong_cmd = codes "PONG\r\n"

abbrev pub new_link : ℕ → Link
new_link limit = record {
  connected = false;
  info_received = false;
  outbound = new_data_buffer;
  pending_limit = limit;
  microtasks = 0;
  sent = [];
  pongs = [];
  settled = [];
  connect_error = none;
  early = [];
}

-- `transport.send`
abbrev pub send : Bytes → Link → Link
send b l = record (l) { sent = l.sent ++ direct b ∷ [] }

abbrev pub drain_all : Link → Link
drain_all l =
    let r = drain none l.outbound in
    record (l) { outbound = r.0; sent = l.sent ++ buffered r.1 ∷ [] }

unfoldable pub flush_pending : Link → Link
unfolding drain size
flush_pending l =
    if not l.info_received || not l.connected
    then l
    else if size l.outbound == 0
    then l
    else drain_all l

unfoldable pub send_command : Bytes → List Bytes → Link → Link
unfolding fill size flush_pending
send_command cmd payloads l =
    let filled : Link = record (l) { outbound = fill cmd payloads l.outbound } in
    if length l.outbound.buffers == 0
    then record (filled) { microtasks = suc l.microtasks }
    else if leb l.pending_limit (size filled.outbound)
    then flush_pending filled
    else filled

-- The flush that `queueMicrotask` was given.
unfoldable pub run_microtask : Link → Link
unfolding flush_pending
run_microtask l = flush_pending (record (l) { microtasks = l.microtasks - 1 })

unfoldable pub flush : ℕ → Link → Link
unfolding flush_pending fill
flush p l =
    flush_pending (record (l) { pongs = l.pongs ++ p ∷ []; outbound = fill ping_cmd [] l.outbound })

unfoldable pub shift_pong : List ℕ → Link → Link
shift_pong [] l = l
shift_pong (p ∷ ps) l = record (l) { pongs = ps; settled = l.settled ++ resolved p ∷ [] }

unfoldable pub process_pong : Link → Link
unfolding shift_pong
process_pong l = shift_pong l.pongs l

unfoldable pub process_ping : Link → Link
process_ping l = send pong_cmd l

unfoldable pub reset_outbound : Link → Link
unfolding reset
reset_outbound l = record (l) {
  outbound = reset l.outbound;
  pongs = [];
  settled = l.settled ++ map rejected l.pongs;
  info_received = false;
}

-- What `prepare` does to the buffer and the pongs; `p` is the pong of the handshake.
unfoldable pub prepare : ℕ → Link → Link
unfolding reset_outbound
prepare p l = let r = reset_outbound l in record (r) { pongs = p ∷ r.pongs; connect_error = some p }

-- What follows the pong of the handshake in `dial`: the subscriptions go out first, then what waits.
unfoldable pub dialed : Bytes → Link → Link
unfolding flush_pending
dialed subs l =
    let on : Link = record (l) { connected = true; connect_error = none } in
    flush_pending (if length subs == 0 then on else send subs on)

-- The first info of a connection is answered past the buffer.
unfoldable pub process_info : Bytes → Link → Link
process_info connect l =
    if l.info_received
    then l
    else send ping_cmd (send connect (record (l) { info_received = true }))

-- A deferred is settled that stays in the queue: `Heartbeat` resolves its pings so.
abbrev pub settle_early : ℕ → Link → Link
settle_early p l = record (l) { early = l.early ++ p ∷ [] }

-- `connectError`, which rejects the pong of the handshake, and `pong.reject` in `dial`.
unfoldable pub fail_connect : Link → Link
fail_connect l = elim (l.connect_error) [ none ↦ l | some p ↦ settle_early p l ]

-- The transport has closed.
abbrev pub transport_closed : Link → Link
transport_closed l = record (l) { connected = false }

-- What can happen to the link.
pub data Event : Type 0 where
  command : Bytes → List Bytes → Event
  microtask : Event
  flushed : ℕ → Event
  got_pong : Event
  got_ping : Event
  got_info : Bytes → Event
  prepared : ℕ → Event
  connects : Bytes → Event
  closes : Event
  connect_fails : Event
  settles : ℕ → Event

unfoldable pub step : Event → Link → Link
unfolding send_command run_microtask flush process_pong process_ping process_info prepare dialed
    fail_connect
step (command cmd payloads) l = send_command cmd payloads l
step microtask l = run_microtask l
step (flushed p) l = flush p l
step got_pong l = process_pong l
step got_ping l = process_ping l
step (got_info connect) l = process_info connect l
step (prepared p) l = prepare p l
step (connects subs) l = dialed subs l
step closes l = transport_closed l
step connect_fails l = fail_connect l
step (settles p) l = settle_early p l

unfoldable pub run : List Event → Link → Link
unfolding step
run [] l = l
run (e ∷ es) l = run es (step e l)
