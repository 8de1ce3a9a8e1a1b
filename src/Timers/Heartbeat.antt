-- ===== src/Timers/Heartbeat.antt =====
-- core/src/heartbeats.ts: pings at an interval, and a disconnect when too many are not answered. A
-- pending ping is one element of `pendings`; its deferred is not read by anything else here.
use nats_js.Base.{
  append-nil, append_assoc, ◌≡◌, refl, sym, ap, ◌∙◌, arith, ℕ, zero, suc, ◌+◌, ◌≤◌, ◌<◌, Bool, true,
  false, List, [], ◌∷◌, ◌++◌, ◌==◌, if◌then◌else◌,
}

-- What the heartbeat asks of the connection, in order: a status event with the count that it reports,
-- a flush that carries a ping, a disconnect.
pub data Call : Type 0 where
  status : ℕ → Call
  flush disconnect : Call

-- `pendings` is the number of pings that are not answered.
pub record Heartbeat : Type 0 where
  pub max_out : ℕ
  pub timer : Bool
  pub pendings : ℕ
  pub calls : List Call

abbrev pub new_heartbeat : ℕ → Heartbeat
new_heartbeat max_out = record { max_out = max_out; timer = false; pendings = 0; calls = [] }

-- `_reset`
unfoldable pub reset : Heartbeat → Heartbeat
reset h = record h { pendings = 0 }

unfoldable pub cancel : Bool → Heartbeat → Heartbeat
unfolding reset
cancel stale h =
    let quiet = reset (record h { timer = false }) in
    if stale then record quiet { calls = quiet.calls ++ disconnect ∷ [] } else quiet

-- `_schedule` sets the timer; what the timer does is `fire`.
unfoldable pub schedule : Heartbeat → Heartbeat
schedule h = record h { timer = true }

unfoldable pub start : Heartbeat → Heartbeat
unfolding cancel schedule
start h = schedule (cancel false h)

-- The callback of the timer.
unfoldable pub fire : Heartbeat → Heartbeat
unfolding cancel schedule
fire h =
    let told = record h { calls = h.calls ++ status (h.pendings + 1) ∷ [] } in
    if h.pendings == h.max_out
    then cancel true told
    else schedule (record told { calls = told.calls ++ flush ∷ []; pendings = h.pendings + 1 })

-- What may happen: `start`; the timer, if it is set; the answer to a flush, or its failure; `cancel`.
pub data Happens : Heartbeat → Heartbeat → Type 0 where
  starts : {h : Heartbeat} → Happens h (start h)
  fires : {h : Heartbeat} → h.timer ≡ true → Happens h (fire h)
  answered : {h : Heartbeat} → Happens h (reset h)
  rejected : {h : Heartbeat} → Happens h (cancel false h)
  cancelled : {h : Heartbeat} → Happens h (cancel false h)

pub data Reaches (h : Heartbeat) : Heartbeat → Type 0 where
  here : Reaches h h
  then_ : {g k : Heartbeat} → Reaches h g → Happens g k → Reaches h k

Happens-bound :
    {h g : Heartbeat}
    → Happens h g
    → h.pendings ≤ h.max_out
    → (g.pendings ≤ g.max_out) × (g.max_out ≡ h.max_out)
unfolding fire start reset
Happens-bound starts b = ground arith
Happens-bound (fires t) b = ground arith
Happens-bound answered b = ground arith
Happens-bound rejected b = ground arith
Happens-bound cancelled b = ground arith

-- In every state that a heartbeat comes to, at most `maxOut` pings are pending.
pub Reaches-pendings :
    (max_out : ℕ) {h : Heartbeat}
    → Reaches (new_heartbeat max_out) h
    → (h.pendings ≤ max_out) × (h.max_out ≡ max_out)
Reaches-pendings max_out here = (omega arith, refl)
Reaches-pendings max_out (then_ {g} {k} r s) =
    let before = Reaches-pendings max_out r in
    let after = Happens-bound s (omega (arith, before.0, before.1)) in
    (omega (arith, after.0, after.1, before.1), after.1 ∙ before.1)

-- `n` firings of the timer with no answer between them.
unfoldable pub fires_n : ℕ → Heartbeat → Heartbeat
fires_n zero h = h
fires_n (suc n) h = fire (fires_n n h)

-- What the firings report and send.
abbrev pub pings : ℕ → ℕ → List Call
pings from zero = []
pings from (suc n) = pings from n ++ (status (from + n + 1) ∷ flush ∷ [])

fire_below :
    (h : Heartbeat)
    → h.pendings < h.max_out
    → fire h ≡ record h {
      timer = true;
      pendings = h.pendings + 1;
      calls = (h.calls ++ status (h.pendings + 1) ∷ []) ++ flush ∷ [];
    }
unfolding fire
fire_below h b = ground arith

-- While fewer than `maxOut` pings are pending, each firing reports and sends one more.
fires_n-below :
    (n : ℕ) (h : Heartbeat)
    → h.pendings + n ≤ h.max_out
    → ((fires_n n h).pendings ≡ h.pendings + n)
      × ((fires_n n h).max_out ≡ h.max_out)
      × ((fires_n n h).calls ≡ h.calls ++ pings h.pendings n)
unfolding fires_n
fires_n-below zero h b = (omega arith, refl, sym (append-nil h.calls))
fires_n-below (suc n) h b =
    let before = fires_n-below n h (omega arith) in
    let g = fires_n n h in
    let one = fire_below g (omega (arith, before.0, before.1)) in
    let counted : g.pendings + 1 ≡ h.pendings + n + 1 = omega (arith, before.0) in
    (
      ap (λ k. k.pendings) one ∙ omega (arith, before.0),
      ap (λ k. k.max_out) one ∙ before.1,
      ap (λ k. k.calls) one
          ∙ append_assoc g.calls (status (g.pendings + 1) ∷ []) (flush ∷ [])
          ∙ ap (λ p. g.calls ++ (status p ∷ flush ∷ [])) counted
          ∙ ap (λ c. c ++ (status (h.pendings + n + 1) ∷ flush ∷ [])) before.2
          ∙ append_assoc h.calls (pings h.pendings n) _,
    )

fire_full :
    (h : Heartbeat)
    → h.pendings ≡ h.max_out
    → ((fire h).timer ≡ false)
      × ((fire h).pendings ≡ 0)
      × ((fire h).calls ≡ (h.calls ++ status (h.pendings + 1) ∷ []) ++ disconnect ∷ [])
unfolding fire
fire_full h b = ground arith

-- With no answer, and at most `maxOut` pings pending, the connection is dropped at the firing that finds
-- `maxOut` pings pending, and at no firing before: until then each firing only reports and sends a ping.
-- Afterwards nothing is pending and the timer is not set.
pub fires_n-disconnect :
    (n : ℕ) (h : Heartbeat)
    → h.pendings + n ≡ h.max_out
    → ((fires_n n h).calls ≡ h.calls ++ pings h.pendings n)
      × ((fires_n (suc n) h).calls
          ≡ ((h.calls ++ pings h.pendings n) ++ status (h.max_out + 1) ∷ []) ++ disconnect ∷ [])
      × ((fires_n (suc n) h).timer ≡ false)
      × ((fires_n (suc n) h).pendings ≡ 0)
unfolding fires_n
fires_n-disconnect n h b =
    let before = fires_n-below n h (omega arith) in
    let g = fires_n n h in
    let full = fire_full g (omega (arith, before.0, before.1)) in
    let counted : g.pendings + 1 ≡ h.max_out + 1 = omega (arith, before.0) in
    (
      before.2,
      full.2
          ∙ ap (λ p. (g.calls ++ status p ∷ []) ++ disconnect ∷ []) counted
          ∙ ap (λ c. (c ++ status (h.max_out + 1) ∷ []) ++ disconnect ∷ []) before.2,
      full.0,
      full.1,
    )
