-- ===== src/Protocol/Pongs.antt =====
-- The pings of core/src/protocol.ts that wait for their pongs.
use nats_js.Base.{
  ℕ, suc, Option, none, some, ◌-◌, ◌≡◌, refl, sym, ap, ◌∙◌, Bool, true, false, not, ◌||◌, List, [],
  ◌∷◌, ◌++◌, map, leb, ◌==◌, if◌then◌else◌, Bytes, length, append-nil, append_assoc,
}
use nats_js.Buffers.DataBuffer.{fill, size}
use nats_js.Protocol.Outbound.{
  Settled, resolved, rejected, Link, ping_cmd, send, drain_all, flush_pending, send_command,
  run_microtask, flush, shift_pong, process_pong, process_ping, reset_outbound, prepare, dialed,
  process_info, Event, command, microtask, flushed, got_pong, got_ping, got_info, prepared,
  connects, closes, connect_fails, settles, fail_connect, settle_early, step, run,
}

abbrev pub ids : List Settled → List ℕ
ids [] = []
ids (resolved p ∷ ss) = p ∷ ids ss
ids (rejected p ∷ ss) = p ∷ ids ss

-- Those that have left the queue, then those that wait.
abbrev pub asked : Link → List ℕ
asked l = ids l.settled ++ l.pongs

abbrev pub asks : Event → List ℕ
asks (flushed p) = p ∷ []
asks (prepared p) = p ∷ []
asks (command a bs) = []
asks microtask = []
asks got_pong = []
asks got_ping = []
asks (got_info b) = []
asks (connects b) = []
asks closes = []
asks connect_fails = []
asks (settles p) = []

abbrev pub all_asks : List Event → List ℕ
all_asks [] = []
all_asks (e ∷ es) = asks e ++ all_asks es

ids-append : (ss ts : List Settled) → ids (ss ++ ts) ≡ ids ss ++ ids ts
ids-append [] ts = refl
ids-append (resolved p ∷ ss) ts = ap (λ x. p ∷ x) (ids-append ss ts)
ids-append (rejected p ∷ ss) ts = ap (λ x. p ∷ x) (ids-append ss ts)

ids-rejected : (ps : List ℕ) → ids (map rejected ps) ≡ ps
ids-rejected [] = refl
ids-rejected (p ∷ ps) = ap (λ x. p ∷ x) (ids-rejected ps)

flush_pending-asked : (l : Link) → (asked (flush_pending l) ≡ asked l)
unfolding flush_pending
flush_pending-asked l = choose (not l.info_received || not l.connected) (size l.outbound == 0)
  where
    choose : (a b : Bool) → asked (if a then l else if b then l else drain_all l) ≡ asked l
    choose true b = refl
    choose false true = refl
    choose false false = refl

send_command-asked :
    (a : Bytes) (bs : List Bytes) (l : Link) → asked (send_command a bs l) ≡ asked l
unfolding send_command
send_command-asked a bs l =
    choose (length l.outbound.buffers == 0) (leb l.pending_limit (size (fill a bs l.outbound)))
  where
    choose :
        (x y : Bool)
        → asked (
            if x
            then record (l) { outbound = fill a bs l.outbound; microtasks = suc l.microtasks }
            else if y
            then flush_pending (record (l) { outbound = fill a bs l.outbound })
            else record (l) { outbound = fill a bs l.outbound })
          ≡ asked l
    choose true y = refl
    choose false true = flush_pending-asked (record (l) { outbound = fill a bs l.outbound })
    choose false false = refl

shift_pong-asked : (ps : List ℕ) (l : Link) → l.pongs ≡ ps → asked (shift_pong ps l) ≡ asked l
unfolding shift_pong
shift_pong-asked [] l e = refl
shift_pong-asked (p ∷ ps) l e =
    ap (λ x. x ++ ps) (ids-append l.settled (resolved p ∷ []))
    ∙ append_assoc (ids l.settled) (p ∷ []) ps
    ∙ ap (λ x. ids l.settled ++ x) (sym e)

prepare-asked : (p : ℕ) (l : Link) → asked (prepare p l) ≡ asked l ++ p ∷ []
unfolding prepare reset_outbound
prepare-asked p l =
    ap (λ x. x ++ p ∷ []) (ids-append l.settled (map rejected l.pongs))
    ∙ ap (λ x. (ids l.settled ++ x) ++ p ∷ []) (ids-rejected l.pongs)

dialed-asked : (b : Bytes) (l : Link) → asked (dialed b l) ≡ asked l
unfolding dialed
dialed-asked b l = choose (length b == 0)
  where
    choose :
        (x : Bool)
        → asked (
            flush_pending (
              if x
              then record (l) { connected = true; connect_error = none }
              else send b (record (l) { connected = true; connect_error = none })))
          ≡ asked l
    choose true = flush_pending-asked (record (l) { connected = true; connect_error = none })
    choose false =
        flush_pending-asked (send b (record (l) { connected = true; connect_error = none }))

process_info-asked : (b : Bytes) (l : Link) → asked (process_info b l) ≡ asked l
unfolding process_info
process_info-asked b l = choose l.info_received
  where
    choose :
        (x : Bool)
        → asked (if x then l else send ping_cmd (send b (record (l) { info_received = true })))
          ≡ asked l
    choose true = refl
    choose false = refl

fail_connect-asked : (l : Link) → asked (fail_connect l) ≡ asked l
unfolding fail_connect
fail_connect-asked l = choose l.connect_error
  where
    choose :
        (o : Option ℕ)
        → asked (elim o as (λ _. Link) [ none ↦ l | some p ↦ settle_early p l ]) ≡ asked l
    choose none = refl
    choose (some p) = refl

nothing : (l : Link) (x : List ℕ) → x ≡ asked l → x ≡ asked l ++ []
nothing l x e = e ∙ sym (append-nil (asked l))

step-asked : (e : Event) (l : Link) → asked (step e l) ≡ asked l ++ asks e
unfolding step run_microtask flush process_pong process_ping
step-asked (command a bs) l = nothing l _ (send_command-asked a bs l)
step-asked microtask l =
    nothing l _ (flush_pending-asked (record (l) { microtasks = l.microtasks - 1 }))
step-asked (flushed p) l =
    flush_pending-asked
      (record (l) { pongs = l.pongs ++ p ∷ []; outbound = fill ping_cmd [] l.outbound })
    ∙ sym (append_assoc (ids l.settled) l.pongs (p ∷ []))
step-asked got_pong l = nothing l _ (shift_pong-asked l.pongs l refl)
step-asked got_ping l = nothing l _ refl
step-asked (got_info b) l = nothing l _ (process_info-asked b l)
step-asked (prepared p) l = prepare-asked p l
step-asked (connects b) l = nothing l _ (dialed-asked b l)
step-asked closes l = nothing l _ refl
step-asked connect_fails l = nothing l _ (fail_connect-asked l)
step-asked (settles p) l = nothing l _ refl

-- The deferreds of pings leave their queue in the order in which they were put there, each once, also if some are
-- settled early in their place: those that have left, by their pongs or because a connection was lost, and then those
-- that wait are at any time all that were put there.
pub asked-run : (es : List Event) (l : Link) → asked (run es l) ≡ asked l ++ all_asks es
unfolding run
asked-run [] l = sym (append-nil (asked l))
asked-run (e ∷ es) l =
    asked-run es (step e l)
    ∙ ap (λ x. x ++ all_asks es) (step-asked e l)
    ∙ append_assoc (asked l) (asks e) (all_asks es)
