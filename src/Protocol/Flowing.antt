-- ===== src/Protocol/Flowing.antt =====
-- Nothing stays behind in the buffer of core/src/protocol.ts.
use mathlib.Core.List.{flatten}
use nats_js.Base.{
  ℕ, suc, Option, some, ◌+◌, ◌-◌, ◌≤◌, ◌<◌, ◌≡◌, refl, arith, Bool, true, false, not, ◌||◌, none,
  List, [], ◌∷◌, ◌++◌, ltb, leb, ◌==◌, if◌then◌else◌, Bytes, length, inl, inr, ◌⊎◌, Bool-cases,
}
use nats_js.Buffers.DataBuffer.{
  DataBuffer, fill, fill_more, drain, drain_packed, split_off, pack, clamp, size, reset, contents,
}
use nats_js.Protocol.Outbound.{
  Link, new_link, ping_cmd, send, drain_all, flush_pending, send_command, run_microtask, flush,
  shift_pong, process_pong, process_ping, reset_outbound, prepare, dialed, process_info, Event,
  command, microtask, flushed, got_pong, got_ping, got_info, prepared, connects, closes,
  connect_fails, settles, fail_connect, settle_early, step,
}

-- A buffer with no bytes has no chunks.
abbrev IsSolid : DataBuffer → Type 0
IsSolid d = d.byte_length ≡ 0 → length d.buffers ≡ 0

-- While the client is connected, what waits in the buffer has a flush queued for it.
abbrev Flows : Link → Type 0
Flows l =
    IsSolid l.outbound
    × (l.connected ≡ true
        → l.info_received ≡ true
        → (length l.outbound.buffers ≡ 0) ⊎ (0 < l.microtasks))

length-drain : (d : DataBuffer) → length (drain none d).0.buffers ≡ 0
unfolding drain drain_packed split_off pack clamp
length-drain d = choose d.buffers
  where
    choose : (bs : List Bytes) → length (drain none (record (d) { buffers = bs })).0.buffers ≡ 0
    choose [] = refl
    choose (b ∷ []) = (let e : ltb d.byte_length d.byte_length ≡ false = ground arith in rw e refl)
    choose (b ∷ c ∷ bs) =
        let e : ltb d.byte_length d.byte_length ≡ false = ground arith in
        let g : ltb 1 (suc (suc (length bs))) ≡ true = ground arith in rw (g, e) refl

fill_more-le : (bs : List Bytes) (d : DataBuffer) → d.byte_length ≤ (fill_more bs d).byte_length
unfolding fill_more
fill_more-le [] d = omega arith
fill_more-le (b ∷ bs) d = elim (Bool-cases (length b == 0)) [
  | inl q ↦ rw (q, fill_more) (fill_more-le bs d)
  | inr q ↦
      rw (q, fill_more)
        (omega (
          arith,
          fill_more-le bs
              (record { buffers = d.buffers ++ b ∷ []; byte_length = d.byte_length + length b }),
        ))
]

fill-IsSolid : (a : Bytes) (bs : List Bytes) (d : DataBuffer) → 0 < length a → IsSolid (fill a bs d)
unfolding fill
fill-IsSolid a bs d n z = absurd (
    omega (
      arith,
      fill_more-le bs
          (record { buffers = d.buffers ++ a ∷ []; byte_length = d.byte_length + length a }),
    ))

flush_pending-Flows : (l : Link) → IsSolid l.outbound → Flows (flush_pending l)
unfolding flush_pending size
flush_pending-Flows l s =
    choose l.info_received l.connected (l.outbound.byte_length == 0) refl refl refl
  where
    choose :
        (i c z : Bool)
        → l.info_received ≡ i
        → l.connected ≡ c
        → (l.outbound.byte_length == 0) ≡ z
        → Flows (if not i || not c then l else if z then l else drain_all l)
    choose false c z p q r = (s, λ a b. absurd (ground arith))
    choose true false z p q r = (s, λ a b. absurd (ground arith))
    choose true true true p q r = (s, λ a b. inl (s (ground arith)))
    choose true true false p q r =
        (λ e. length-drain l.outbound, λ a b. inl (length-drain l.outbound))

send_command-Flows :
    (a : Bytes) (bs : List Bytes) (l : Link) → 0 < length a → Flows l → Flows (send_command a bs l)
unfolding send_command
send_command-Flows a bs l n f =
    choose (length l.outbound.buffers == 0) (leb l.pending_limit (size (fill a bs l.outbound))) refl
  where
    choose :
        (x y : Bool)
        → (length l.outbound.buffers == 0) ≡ x
        → Flows (
            if x
            then record (l) { outbound = fill a bs l.outbound; microtasks = suc l.microtasks }
            else if y
            then flush_pending (record (l) { outbound = fill a bs l.outbound })
            else record (l) { outbound = fill a bs l.outbound })
    choose true y q = (fill-IsSolid a bs l.outbound n, λ c i. inr (omega arith))
    choose false true q =
        flush_pending-Flows (record (l) { outbound = fill a bs l.outbound })
          (fill-IsSolid a bs l.outbound n)
    choose false false q = (
      fill-IsSolid a bs l.outbound n,
      λ c i.
          elim (f.1 c i)
            as (λ _. (length (fill a bs l.outbound).buffers ≡ 0) ⊎ (0 < l.microtasks)) [
              | inl e ↦ absurd (ground arith)
              | inr m ↦ inr m
            ],
    )

shift_pong-Flows : (ps : List ℕ) (l : Link) → Flows l → Flows (shift_pong ps l)
unfolding shift_pong
shift_pong-Flows [] l f = f
shift_pong-Flows (p ∷ ps) l f = f

dialed-Flows : (b : Bytes) (l : Link) → Flows l → Flows (dialed b l)
unfolding dialed
dialed-Flows b l f = choose (length b == 0)
  where
    choose :
        (x : Bool)
        → Flows (
            flush_pending (
              if x
              then record (l) { connected = true; connect_error = none }
              else send b (record (l) { connected = true; connect_error = none })))
    choose true = flush_pending-Flows (record (l) { connected = true; connect_error = none }) f.0
    choose false =
        flush_pending-Flows (send b (record (l) { connected = true; connect_error = none })) f.0

process_info-Flows :
    (b : Bytes) (l : Link)
    → (l.connected ≡ false) ⊎ (l.info_received ≡ true)
    → Flows l
    → Flows (process_info b l)
unfolding process_info
process_info-Flows b l g f = choose l.info_received refl g
  where
    choose :
        (x : Bool)
        → l.info_received ≡ x
        → (l.connected ≡ false) ⊎ (l.info_received ≡ true)
        → Flows (if x then l else send ping_cmd (send b (record (l) { info_received = true })))
    choose true q g = f
    choose false q (inl c) = (f.0, λ a i. absurd (ground arith))
    choose false q (inr c) = absurd (ground arith)

-- A command is not empty; the first info of a connection comes before its pong.
abbrev pub Allowed : Event → Link → Type 0
Allowed (command a bs) l = 0 < length a
Allowed (got_info b) l = (l.connected ≡ false) ⊎ (l.info_received ≡ true)
Allowed microtask l = Unit
Allowed (flushed p) l = Unit
Allowed got_pong l = Unit
Allowed got_ping l = Unit
Allowed (prepared p) l = Unit
Allowed (connects b) l = Unit
Allowed closes l = Unit
Allowed connect_fails l = Unit
Allowed (settles p) l = Unit

pub data Reaches : Link → Type 0 where
  starts : (n : ℕ) → Reaches (new_link n)
  steps : (l : Link) (e : Event) → Reaches l → Allowed e l → Reaches (step e l)

fail_connect-Flows : (l : Link) → Flows l → Flows (fail_connect l)
unfolding fail_connect
fail_connect-Flows l f = choose l.connect_error
  where
    choose : (o : Option ℕ) → Flows (elim o as (λ _. Link) [ none ↦ l | some p ↦ settle_early p l ])
    choose none = f
    choose (some p) = f

step-Flows : (e : Event) (l : Link) → Allowed e l → Flows l → Flows (step e l)
unfolding step run_microtask flush process_pong process_ping prepare reset_outbound reset
step-Flows (command a bs) l g f = send_command-Flows a bs l g f
step-Flows microtask l g f = flush_pending-Flows (record (l) { microtasks = l.microtasks - 1 }) f.0
step-Flows (flushed p) l g f =
    flush_pending-Flows
      (record (l) { pongs = l.pongs ++ p ∷ []; outbound = fill ping_cmd [] l.outbound })
      (fill-IsSolid ping_cmd [] l.outbound (omega arith))
step-Flows got_pong l g f = shift_pong-Flows l.pongs l f
step-Flows got_ping l g f = f
step-Flows (got_info b) l g f = process_info-Flows b l g f
step-Flows (prepared p) l g f = (λ z. refl, λ c i. absurd (ground arith))
step-Flows (connects b) l g f = dialed-Flows b l f
step-Flows closes l g f = (f.0, λ c i. absurd (ground arith))
step-Flows connect_fails l g f = fail_connect-Flows l f
step-Flows (settles p) l g f = f

Reaches-Flows : (l : Link) → Reaches l → Flows l
Reaches-Flows l (starts n) = (λ z. refl, λ c i. inl refl)
Reaches-Flows l (steps k e r g) = step-Flows e k g (Reaches-Flows k r)

empty-contents : (d : DataBuffer) → length d.buffers ≡ 0 → contents d ≡ []
unfolding flatten
empty-contents d e = choose d.buffers e
  where
    choose : (bs : List Bytes) → length bs ≡ 0 → flatten bs ≡ []
    choose [] e = refl
    choose (b ∷ bs) e = absurd (omega arith)

-- In every reached state in which the client is connected, has the info and has no flush queued, nothing waits
-- in the buffer; a command is never empty, and the first info of a connection comes before it is connected.
pub Reaches-contents :
    (l : Link)
    → Reaches l
    → l.connected ≡ true
    → l.info_received ≡ true
    → l.microtasks ≡ 0
    → contents l.outbound ≡ []
Reaches-contents l r c i m =
    empty-contents l.outbound
      (elim ((Reaches-Flows l r).1 c i) as (λ _. length l.outbound.buffers ≡ 0) [
        | inl e ↦ e
        | inr n ↦ absurd (omega arith)
      ])
