-- ===== src/Dial/Bound.antt =====
-- The dial loop of core/src/protocol.ts dials no server more often than it may.
use mathlib.Core.Path.{subst}
use nats_js.Base.{
  ℕ, zero, suc, ◌+◌, ◌-◌, ◌≤◌, ◌<◌, ◌≡◌, refl, sym, ap, ◌∙◌, arith, Bool, true, false, Option, none,
  some, List, [], ◌∷◌, ◌++◌, if◌then◌else◌, pos,
}
use nats_js.Pool.{Server, Servers, select_server, clear}
use nats_js.Dial.{
  Still, Options, Dialer, Turn, Turned, goes_on, threw, connected, turn_selected, turn_waiting,
  turn, dial_loop,
}
use nats_js.Dial.Weights.{has}
use nats_js.Dial.Turns.{Limited}
use nats_js.Dial.Unique.{Unique, has-snoc, Unique-snoc}
use nats_js.Dial.Attempts.{times, Counted, Bounded, Fits, Counted-Bounded}
use nats_js.Dial.Fits.{turn_selected-Fits}

-- The state in which a turn leaves the loop.
abbrev pub state : Turned → Dialer
state (goes_on d) = d
state (connected d) = d
state (threw x d) = d

module _ (m : ℕ) (o : Options) (e : o.max_reconnect_attempts ≡ pos m) (start : ℕ → ℕ) where
  -- A current server that is still to be dialed first has an attempt left.
  abbrev pub First : Dialer → Type 0
  First d =
      d.pool.first_select ≡ true → (s : Server) → d.pool.current ≡ some s → d.reconnects s.id < m

  abbrev at_select : Turn → Servers → Dialer → Dialer
  at_select t p d = record (d) { pool = p; clock = d.clock + t.idle }

  turn_waiting-Fits :
      (t : Turn) (still : Still t) (r : Option ℕ) (d : Dialer)
      → Counted m o e start d
      → Limited o d
      → First d
      → Fits m o e start (turn_waiting o t r d)
  unfolding turn_waiting turn_selected select_server
  turn_waiting-Fits t still none d c lim f = Counted-Bounded m o e start d c
  turn_waiting-Fits t still (some w) d c lim f =
      choose d.pool.first_select d.pool.servers d.pool.current refl refl refl
    where
      choose :
          (b : Bool) (ss : List Server) (cur : Option Server)
          → d.pool.first_select ≡ b
          → d.pool.servers ≡ ss
          → d.pool.current ≡ cur
          → (let p : Servers = record { first_select = b; servers = ss; current = cur } in
              Fits m o e start
                (turn_selected o t w (select_server p).0 (at_select t (select_server p).1 d)))
      choose true ss none q r v = λ i. Counted-Bounded m o e start d c i
      choose true ss (some s) q r v =
          turn_selected-Fits m o e start t still w s
            (at_select t (record { first_select = false; servers = ss; current = some s }) d)
            (
              (c.0, c.1, λ i h. c.2 i (ap (has i) r ∙ h), subst Unique r c.3),
              lim,
              refl,
              f q s v,
              refl,
            )
      choose false [] cur q r v = λ i. Counted-Bounded m o e start d c i
      choose false (s ∷ ss) cur q r v =
          let u : Unique (s ∷ ss) = subst Unique r c.3 in
          let live : (i : ℕ) → has i (s ∷ ss) ≡ true → d.reconnects i < m =
            λ i h. c.2 i (ap (has i) r ∙ h) in
          turn_selected-Fits m o e start t still w s
            (at_select t (record { first_select = false; servers = ss ++ s ∷ []; current = some s })
              d)
            (
              (c.0, c.1, λ i h. live i (sym (has-snoc i s ss) ∙ h), Unique-snoc s ss u),
              lim,
              refl,
              live s.id (ground arith),
              refl,
            )

  turn-Fits :
      (t : Turn) (still : Still t) (d : Dialer)
      → Counted m o e start d
      → Limited o d
      → First d
      → Fits m o e start (turn o t d)
  unfolding turn clear
  turn-Fits t still d c lim f = choose t.closing
    where
      choose :
          (b : Bool)
          → Fits m o e start
              (turn_waiting o t t.wait (record (d) { pool = if b then clear d.pool else d.pool }))
      choose true =
          turn_waiting-Fits t still t.wait (record (d) { pool = clear d.pool })
            (c.0, c.1, λ i h. absurd (ground arith), tt) lim f
      choose false = turn_waiting-Fits t still t.wait d c lim f

  dial_loop-Bounded :
      (turns : ℕ → Turn) (still : (j : ℕ) → Still (turns j)) (fuel i : ℕ) (d : Dialer)
      → Counted m o e start d
      → Limited o d
      → First d
      → Bounded m o e start (state (dial_loop fuel o turns i d))
  unfolding dial_loop
  dial_loop-Bounded turns still zero i d c lim f = Counted-Bounded m o e start d c
  dial_loop-Bounded turns still (suc fuel) i d c lim f =
      choose (turn o (turns i) d) (turn-Fits (turns i) (still i) d c lim f) (λ d' g.
        dial_loop-Bounded turns still fuel (suc i) d' g.0 g.2
          (λ q. absurd (let a = g.1 in ground arith)))
    where
      choose :
          (r : Turned)
          → Fits m o e start r
          → ((d' : Dialer)
              → Fits m o e start (goes_on d')
              → Bounded m o e start (state (dial_loop fuel o turns (suc i) d')))
          → Bounded m o e start (
              state (elim r as (λ _. Turned) [
                | goes_on d' ↦ dial_loop fuel o turns (suc i) d'
                | connected d' ↦ connected d'
                | threw x d' ↦ threw x d'
              ]))
      choose (goes_on d') g h = h d' g
      choose (connected d') g h = g
      choose (threw x d') g h = g

-- However long the dial loop runs, it dials no server more often than the attempts that the server had left
-- at its start: if infos leave the pool as it is, as they do with ignoreClusterUpdates, the pool has no duplicates, each of its servers and the current one has attempts left
-- and none has had more than the limit, and the client was connected before or does not wait for a first
-- connection.
pub dial_loop-times :
    (m : ℕ) (o : Options) (turns : ℕ → Turn) (fuel : ℕ) (d : Dialer)
    → ((j : ℕ) → Still (turns j))
    → o.max_reconnect_attempts ≡ pos m
    → Limited o d
    → Unique d.pool.servers
    → ((i : ℕ) → has i d.pool.servers ≡ true → d.reconnects i < m)
    → ((s : Server) → d.pool.current ≡ some s → d.reconnects s.id < m)
    → ((i : ℕ) → d.reconnects i ≤ m)
    → d.dials ≡ []
    → (i : ℕ) → times i (state (dial_loop fuel o turns 0 d)).dials ≤ m - d.reconnects i
dial_loop-times m o turns fuel d still e lim u live cur low fresh i =
    let b =
      dial_loop-Bounded m o e d.reconnects turns still fuel 0 d
        (λ j. (let z = ap (times j) fresh in omega arith), low, live, u) lim (λ _. cur) i in
    omega arith
