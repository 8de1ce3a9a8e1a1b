-- ===== src/Dial/Moves.antt =====
-- What a whole turn of the dial loop of core/src/protocol.ts does to the chances that are left.
use nats_js.Base.{
  ℕ, ◌+◌, ◌≤◌, ◌<◌, ◌≡◌, refl, ap, ◌∙◌, arith, Bool, true, false, Option, none, some, List, [], ◌∷◌,
  ◌++◌, ◌==◌, if◌then◌else◌, pos, inl, inr, ◌⊎◌, Bool-cases,
}
use nats_js.Pool.{Server, Servers, select_server, clear}
use nats_js.Dial.{Still, Options, Dialer, Turn, goes_on, turn_selected, turn_waiting, turn}
use nats_js.Dial.Weights.{has, total, total-append}
use nats_js.Dial.Turns.{Limited, left}
use nats_js.Dial.Progress.{Past, Dialed, Waited, turn_selected-goes_on}

abbrev pub first_left : Bool → ℕ
first_left true = 1
first_left false = 0

-- The dials that can still fail: one for a server that was current before any was selected, and the
-- attempts that the servers of the pool have left, and one more for each.
abbrev pub chances : ℕ → Dialer → ℕ
chances m d = first_left d.pool.first_select + left m d

-- The delay that the handler gives is at most `w`.
abbrev pub AtMost : ℕ → Option ℕ → Type 0
AtMost w none = Unit
AtMost w (some x) = x ≤ w

module _ (m : ℕ) (o : Options) (e : o.max_reconnect_attempts ≡ pos m) where
  -- A server that is selected: the one that was current before any was selected, or the head of the pool.
  abbrev pub Selected : (ℕ → ℕ) → Servers → Servers → Server → Type 0
  Selected r p p' s =
      (p'.first_select ≡ false)
      × (((p.first_select ≡ true) × (total m r p'.servers ≡ total m r p.servers))
          ⊎ ((p.first_select ≡ false)
              × (total m r p'.servers ≡ total m r p.servers)
              × (p'.current ≡ some s)
              × (has s.id p'.servers ≡ true)))

  has-snoc :
      (i : ℕ) (ss : List Server) (s : Server) → (s.id == i) ≡ true → has i (ss ++ s ∷ []) ≡ true
  has-snoc i [] s q = ground arith
  has-snoc i (x ∷ ss) s q = ground (arith, has-snoc i ss s q)

  pub select_server-Selected :
      (r : ℕ → ℕ) (p : Servers) (s : Server)
      → (select_server p).0 ≡ some s
      → Selected r p (select_server p).1 s
  unfolding select_server
  select_server-Selected r p s h = choose p.first_select p.servers h
    where
      choose :
          (b : Bool) (ss : List Server)
          → (select_server (record (p) { first_select = b; servers = ss })).0 ≡ some s
          → Selected r
              (record (p) { first_select = b; servers = ss })
              (select_server (record (p) { first_select = b; servers = ss })).1
              s
      choose true ss h = (refl, inl (refl, refl))
      choose false [] h = ground arith
      choose false (x ∷ ss) h =
          let q : x ≡ s = ground arith in
          (
            refl,
            inr (
              refl,
              (let a = total-append m r ss (x ∷ []) in omega arith),
              h,
              has-snoc s.id ss x (ground (arith, ap (λ y. y.id) q)),
            ),
          )

  -- A turn that goes on: a chance is gone, or time has passed that is left until every server is due.
  abbrev pub Moved : ℕ → ℕ → Dialer → Dialer → Type 0
  Moved l w d d' =
      Limited o d'
      × (((chances m d' < chances m d) × Past d')
          ⊎ ((chances m d' ≤ chances m d)
              × (d'.last_connect ≡ d.last_connect)
              × (d.clock < d'.clock)
              × (d.clock < l + w)))

  still-Limited :
      (d d' : Dialer) → Limited o d → d'.connected_once ≡ d.connected_once → Limited o d'
  still-Limited d d' (inl h) q = inl (q ∙ h)
  still-Limited d d' (inr h) q = inr h

  -- The state in which a server is selected.
  abbrev at_select : Turn → Servers → Dialer → Dialer
  at_select t p d = record (d) { pool = p; clock = d.clock + t.idle }

  fewer-Dialed :
      (t : Turn) (s : Server) (p : Servers) (d d' : Dialer)
      → Selected d.reconnects d.pool p s
      → Dialed m o e s (at_select t p d) d'
      → chances m d' < chances m d
  fewer-Dialed t s p d d' (f, inl (q, a)) g =
      let b = ap first_left q in let c = ap first_left (g.1 ∙ f) in let le = g.3 in omega arith
  fewer-Dialed t s p d d' (f, inr (q, a, c, h)) g =
      let b = ap first_left q in
      let k = ap first_left (g.1 ∙ f) in let lt = g.4 (s, c, h) in omega arith

  fewer-Waited :
      (t : Turn) (x : ℕ) (s : Server) (p : Servers) (d d' : Dialer)
      → Selected d.reconnects d.pool p s
      → Waited m o e x s (at_select t p d) d'
      → chances m d' ≤ chances m d
  fewer-Waited t x s p d d' sel g =
      let a = ap (λ y. first_left y.first_select) g.1 in
      let b = ap first_left sel.0 in
      let c = ap (λ y. total m d'.reconnects y.servers) g.1 in
      let k = ap (λ y. total m y p.servers) g.2 in
      elim (sel.1) as (λ _. chances m d' ≤ chances m d) [
        | inl r ↦ (let v = r.1 in omega arith)
        | inr r ↦ (let v = r.1 in omega arith)
      ]

  turn_selected-Moved :
      (t : Turn) (still : Still t) (l w x : ℕ) (s : Server) (p : Servers) (d d' : Dialer)
      → Limited o d
      → Past d
      → ((i : ℕ) → d.last_connect i ≤ l)
      → x ≤ w
      → Selected d.reconnects d.pool p s
      → turn_selected o t x (some s) (at_select t p d) ≡ goes_on d'
      → Moved l w d d'
  turn_selected-Moved t still l w x s p d d' lim past low small sel h = choose (
      turn_selected-goes_on m o e t still x s (at_select t p d) d' lim
        (λ i. (let a = past i in omega arith)) h)
    where
      choose :
          Dialed m o e s (at_select t p d) d' ⊎ Waited m o e x s (at_select t p d) d'
          → Moved l w d d'
      choose (inl g) = (still-Limited d d' lim g.2, inl (fewer-Dialed t s p d d' sel g, g.0))
      choose (inr g) =
          let a = low s.id in
          let b = g.4 in
          let c = g.5 in
          (
            still-Limited d d' lim g.3,
            inr (fewer-Waited t x s p d d' sel g, g.0, omega arith, omega arith),
          )

  turn_waiting-Moved :
      (t : Turn) (still : Still t) (l w : ℕ) (r : Option ℕ) (d d' : Dialer)
      → Limited o d
      → Past d
      → ((i : ℕ) → d.last_connect i ≤ l)
      → AtMost w r
      → turn_waiting o t r d ≡ goes_on d'
      → Moved l w d d'
  unfolding turn_waiting turn_selected
  turn_waiting-Moved t still l w none d d' lim past low small h = ground arith
  turn_waiting-Moved t still l w (some x) d d' lim past low small h =
      choose (select_server d.pool).0 refl h
    where
      choose :
          (r : Option Server)
          → (select_server d.pool).0 ≡ r
          → turn_selected o t x r (at_select t (select_server d.pool).1 d) ≡ goes_on d'
          → Moved l w d d'
      choose none q h = ground arith
      choose (some s) q h =
          turn_selected-Moved t still l w x s (select_server d.pool).1 d d' lim past low small
            (select_server-Selected d.reconnects d.pool s q) h

  cleared : (t : Turn) (d : Dialer) → Dialer
  cleared t d = record (d) { pool = if t.closing then clear d.pool else d.pool }

  chances-cleared : (t : Turn) (d : Dialer) → chances m (cleared t d) ≤ chances m d
  unfolding cleared clear
  chances-cleared t d = elim (Bool-cases t.closing) [
    | inl q ↦ rw q (omega arith)
    | inr q ↦ rw q (omega arith)
  ]

  pub turn-Moved :
      (t : Turn) (still : Still t) (l w : ℕ) (d d' : Dialer)
      → Limited o d
      → Past d
      → ((i : ℕ) → d.last_connect i ≤ l)
      → AtMost w t.wait
      → turn o t d ≡ goes_on d'
      → Moved l w d d'
  unfolding turn cleared
  turn-Moved t still l w d d' lim past low small h =
      let c = chances-cleared t d in
      let r = turn_waiting-Moved t still l w t.wait (cleared t d) d' lim past low small h in
      (
        r.0,
        elim (r.1)
            as (λ _.
              (((chances m d' < chances m d) × Past d')
                ⊎ ((chances m d' ≤ chances m d)
                    × (d'.last_connect ≡ d.last_connect)
                    × (d.clock < d'.clock)
                    × (d.clock < l + w)))) [
                      | inl x ↦ inl (omega (arith, x.0), x.1)
                      | inr x ↦ inr (omega (arith, x.0), x.1, x.2, x.3)
                    ],
      )
