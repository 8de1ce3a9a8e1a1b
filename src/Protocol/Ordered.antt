-- ===== src/Protocol/Ordered.antt =====
-- What is written and awaited in core/src/protocol.ts keeps its order.
use mathlib.Core.List.{flatten}
use nats_js.Base.{
  Option, none, some, ℕ, suc, ◌-◌, ◌≡◌, refl, sym, ap, ◌∙◌, Bool, true, false, not, ◌||◌, none,
  List, [], ◌∷◌, ◌++◌, leb, ◌==◌, if◌then◌else◌, Bytes, length, append-nil, append_assoc,
}
use nats_js.Buffers.DataBuffer.{fill, drain, size, contents}
use nats_js.Buffers.DataBuffer.Contents.{IsCounted, drain-Drains, contents-fill}
use nats_js.Protocol.Outbound.{
  Sent, buffered, direct, Link, ping_cmd, pong_cmd, send, drain_all, flush_pending, send_command,
  run_microtask, flush, shift_pong, process_pong, process_ping, dialed, process_info,
  transport_closed, Event, command, microtask, flushed, got_pong, got_ping, got_info, prepared,
  connects, closes, connect_fails, settles, fail_connect, settle_early, step, run,
}

-- The bytes that went through the buffer.
abbrev pub through : List Sent → Bytes
through [] = []
through (buffered b ∷ ss) = b ++ through ss
through (direct b ∷ ss) = through ss

-- All that was ever put into the buffer, or waits in it.
abbrev pub stream : Link → Bytes
stream l = through l.sent ++ contents l.outbound

through-snoc : (ss : List Sent) (b : Bytes) → through (ss ++ buffered b ∷ []) ≡ through ss ++ b
through-snoc [] b = append-nil b
through-snoc (buffered c ∷ ss) b =
    ap (λ x. c ++ x) (through-snoc ss b) ∙ sym (append_assoc c (through ss) b)
through-snoc (direct c ∷ ss) b = through-snoc ss b

through-direct : (ss : List Sent) (b : Bytes) → through (ss ++ direct b ∷ []) ≡ through ss
through-direct [] b = refl
through-direct (buffered c ∷ ss) b = ap (λ x. c ++ x) (through-direct ss b)
through-direct (direct c ∷ ss) b = through-direct ss b

-- A state after another whose buffer has had `b` more.
abbrev Adds : Bytes → Link → Link → Type 0
Adds b l l' = (stream l' ≡ stream l ++ b) × IsCounted l'.outbound

drain_all-Adds : (l : Link) → IsCounted l.outbound → Adds [] l (drain_all l)
drain_all-Adds l h =
    let r = drain-Drains none l.outbound h in
    let all : (drain none l.outbound).1 ≡ contents l.outbound = r.0 in
    let none_left : contents (drain none l.outbound).0 ≡ [] = r.1 in
    (
      ap (λ x. through (l.sent ++ buffered (drain none l.outbound).1 ∷ []) ++ x) none_left
          ∙ append-nil (through (l.sent ++ buffered (drain none l.outbound).1 ∷ []))
          ∙ through-snoc l.sent (drain none l.outbound).1
          ∙ ap (λ x. through l.sent ++ x) all
          ∙ sym (append-nil (stream l)),
      r.2,
    )

same-Adds : (l l' : Link) → stream l' ≡ stream l → IsCounted l'.outbound → Adds [] l l'
same-Adds l l' e h = (e ∙ sym (append-nil (stream l)), h)

flush_pending-Adds : (l : Link) → IsCounted l.outbound → Adds [] l (flush_pending l)
unfolding flush_pending
flush_pending-Adds l h = choose (not l.info_received || not l.connected) (size l.outbound == 0)
  where
    choose : (a b : Bool) → Adds [] l (if a then l else if b then l else drain_all l)
    choose true b = same-Adds l l refl h
    choose false true = same-Adds l l refl h
    choose false false = drain_all-Adds l h

-- A flush after something was put into the buffer.
then_flush : (b : Bytes) (l l' : Link) → Adds b l l' → Adds b l (flush_pending l')
then_flush b l l' (e, h) =
    let r = flush_pending-Adds l' h in (r.0 ∙ append-nil (stream l') ∙ e, r.1)

fill-Adds :
    (a : Bytes) (bs : List Bytes) (l : Link)
    → IsCounted l.outbound
    → Adds (a ++ flatten bs) l (record (l) { outbound = fill a bs l.outbound })
fill-Adds a bs l h =
    let r = contents-fill a bs l.outbound h in
    (
      ap (λ x. through l.sent ++ x) r.0
          ∙ sym (append_assoc (through l.sent) (contents l.outbound) (a ++ flatten bs)),
      r.1,
    )

pub send_command-Adds :
    (a : Bytes) (bs : List Bytes) (l : Link)
    → IsCounted l.outbound
    → Adds (a ++ flatten bs) l (send_command a bs l)
unfolding send_command
send_command-Adds a bs l h =
    choose (length l.outbound.buffers == 0) (leb l.pending_limit (size (fill a bs l.outbound)))
  where
    choose :
        (x y : Bool)
        → Adds (a ++ flatten bs) l (
            if x
            then record (l) { outbound = fill a bs l.outbound; microtasks = suc l.microtasks }
            else if y
            then flush_pending (record (l) { outbound = fill a bs l.outbound })
            else record (l) { outbound = fill a bs l.outbound })
    choose true y = fill-Adds a bs l h
    choose false true =
        then_flush (a ++ flatten bs) l (record (l) { outbound = fill a bs l.outbound })
          (fill-Adds a bs l h)
    choose false false = fill-Adds a bs l h

send-Adds : (b : Bytes) (l : Link) → IsCounted l.outbound → Adds [] l (send b l)
send-Adds b l h =
    same-Adds l (send b l) (ap (λ x. x ++ contents l.outbound) (through-direct l.sent b)) h

-- What an event puts into the buffer.
abbrev pub written : Event → Bytes
written (command a bs) = a ++ flatten bs
written (flushed p) = ping_cmd
written microtask = []
written got_pong = []
written got_ping = []
written (got_info b) = []
written (prepared p) = []
written (connects b) = []
written closes = []
written connect_fails = []
written (settles p) = []

abbrev pub all_written : List Event → Bytes
all_written [] = []
all_written (e ∷ es) = written e ++ all_written es

abbrev pub Steady : Event → Type 0
Steady (prepared p) = ⊥
Steady (command a bs) = Unit
Steady (flushed p) = Unit
Steady microtask = Unit
Steady got_pong = Unit
Steady got_ping = Unit
Steady (got_info b) = Unit
Steady (connects b) = Unit
Steady closes = Unit
Steady connect_fails = Unit
Steady (settles p) = Unit

-- No new connection is prepared.
abbrev pub IsSteady : List Event → Type 0
IsSteady [] = Unit
IsSteady (e ∷ es) = Steady e × IsSteady es

shift_pong-Adds : (ps : List ℕ) (l : Link) → IsCounted l.outbound → Adds [] l (shift_pong ps l)
unfolding shift_pong
shift_pong-Adds [] l h = same-Adds l l refl h
shift_pong-Adds (p ∷ ps) l h = same-Adds l (shift_pong (p ∷ ps) l) refl h

dialed-Adds : (b : Bytes) (l : Link) → IsCounted l.outbound → Adds [] l (dialed b l)
unfolding dialed
dialed-Adds b l h = choose (length b == 0)
  where
    choose :
        (x : Bool)
        → Adds [] l (
            flush_pending (
              if x
              then record (l) { connected = true; connect_error = none }
              else send b (record (l) { connected = true; connect_error = none })))
    choose true = flush_pending-Adds (record (l) { connected = true; connect_error = none }) h
    choose false =
        then_flush [] l (send b (record (l) { connected = true; connect_error = none }))
          (send-Adds b (record (l) { connected = true; connect_error = none }) h)

process_info-Adds : (b : Bytes) (l : Link) → IsCounted l.outbound → Adds [] l (process_info b l)
unfolding process_info
process_info-Adds b l h = choose l.info_received
  where
    choose :
        (x : Bool)
        → Adds [] l (if x then l else send ping_cmd (send b (record (l) { info_received = true })))
    choose true = same-Adds l l refl h
    choose false =
        let on : Link = record (l) { info_received = true } in
        let a = send-Adds b on h in
        let c = send-Adds ping_cmd (send b on) h in (c.0 ∙ append-nil (stream (send b on)) ∙ a.0, h)

fail_connect-Adds : (l : Link) → IsCounted l.outbound → Adds [] l (fail_connect l)
unfolding fail_connect
fail_connect-Adds l h = choose l.connect_error
  where
    choose :
        (o : Option ℕ) → Adds [] l (elim o as (λ _. Link) [ none ↦ l | some p ↦ settle_early p l ])
    choose none = same-Adds l l refl h
    choose (some p) = same-Adds l (settle_early p l) refl h

step-Adds : (e : Event) (l : Link) → Steady e → IsCounted l.outbound → Adds (written e) l (step e l)
unfolding step run_microtask flush process_pong process_ping flatten
step-Adds (command a bs) l s h = send_command-Adds a bs l h
step-Adds microtask l s h = flush_pending-Adds (record (l) { microtasks = l.microtasks - 1 }) h
step-Adds (flushed p) l s h =
    then_flush ping_cmd l
      (record (l) { pongs = l.pongs ++ p ∷ []; outbound = fill ping_cmd [] l.outbound })
      (fill-Adds ping_cmd [] l h)
step-Adds got_pong l s h = shift_pong-Adds l.pongs l h
step-Adds got_ping l s h = send-Adds pong_cmd l h
step-Adds (got_info b) l s h = process_info-Adds b l h
step-Adds (prepared p) l s h = absurd s
step-Adds (connects b) l s h = dialed-Adds b l h
step-Adds closes l s h = same-Adds l (transport_closed l) refl h
step-Adds connect_fails l s h = fail_connect-Adds l h
step-Adds (settles p) l s h = same-Adds l (settle_early p l) refl h

-- On one connection, and with a buffer whose byte count is right, what went through the buffer and what waits
-- in it is at any time what the events have written, each command with its payloads and each ping whole and
-- in order.
pub stream-run :
    (es : List Event) (l : Link)
    → IsSteady es
    → IsCounted l.outbound
    → (stream (run es l) ≡ stream l ++ all_written es) × IsCounted (run es l).outbound
unfolding run
stream-run [] l s h = (sym (append-nil (stream l)), h)
stream-run (e ∷ es) l s h =
    let a = step-Adds e l s.0 h in
    let r = stream-run es (step e l) s.1 a.1 in
    (
      r.0
          ∙ ap (λ x. x ++ all_written es) a.0
          ∙ append_assoc (stream l) (written e) (all_written es),
      r.1,
    )
