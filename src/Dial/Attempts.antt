-- ===== src/Dial/Attempts.antt =====
-- How often the dial loop of core/src/protocol.ts dials a server.
use mathlib.Core.Path.{subst}
use nats_js.Base.{
  ℕ, suc, ◌+◌, ◌≤◌, ◌<◌, ◌≡◌, refl, ap, arith, Bool, true, false, some, List, [], ◌∷◌, ◌++◌, leb,
  ◌==◌, if◌then◌else◌, pos, inl, inr, ◌⊎◌, Bool-cases,
}
use nats_js.Pool.{Server, Servers, remove_current_server}
use nats_js.Dial.{
  update, gives_up, Options, Dialer, Turned, goes_on, threw, connected, count_attempt, fail_dial,
}
use nats_js.Dial.Weights.{has}
use nats_js.Dial.Turns.{Limited}
use nats_js.Dial.Unique.{Unique, Unique-remove_current, has-remove_current, remove_current-gone}

-- How often a server was dialed.
abbrev pub times : ℕ → List ℕ → ℕ
times i [] = 0
times i (j ∷ js) = (if j == i then 1 else 0) + times i js

pub times-snoc :
    (i j : ℕ) (js : List ℕ) → times i (js ++ j ∷ []) ≡ times i js + (if j == i then 1 else 0)
times-snoc i j [] = omega arith
times-snoc i j (k ∷ js) = omega (arith, times-snoc i j js)

module _ (m : ℕ) (o : Options) (e : o.max_reconnect_attempts ≡ pos m) (start : ℕ → ℕ) where
  -- What the counts say of the dials, while no server of the pool has had its attempts.
  abbrev pub Counted : Dialer → Type 0
  Counted d =
      ((i : ℕ) → times i d.dials + start i ≡ d.reconnects i)
      × ((i : ℕ) → d.reconnects i ≤ m)
      × ((i : ℕ) → has i d.pool.servers ≡ true → d.reconnects i < m)
      × Unique d.pool.servers

  -- The target, before it is counted: it has an attempt left, and it goes when the current server goes.
  abbrev pub Ready : Server → Dialer → Type 0
  Ready s d =
      ((i : ℕ) → d.reconnects i ≤ m)
      × ((i : ℕ) → has i d.pool.servers ≡ true → d.reconnects i < m)
      × Unique d.pool.servers
      × (d.reconnects s.id < m)
      × ((d.pool.current ≡ some s) ⊎ (has s.id d.pool.servers ≡ false))

  -- The dials of a state into which the target has just come.
  abbrev pub Dials : Server → Dialer → Type 0
  Dials s d =
      (i : ℕ) → times i d.dials + start i ≡ update d.reconnects s.id (suc (d.reconnects s.id)) i

  abbrev counted_pool : Server → Dialer → Servers
  counted_pool s d =
      if gives_up o.max_reconnect_attempts (suc (d.reconnects s.id))
      then remove_current_server d.pool
      else d.pool

  gone :
      (s : Server) (d : Dialer)
      → Ready s d
      → has s.id (remove_current_server d.pool).servers ≡ false
  gone s d r = elim (r.4) as (λ _. has s.id (remove_current_server d.pool).servers ≡ false) [
    | inl c ↦ remove_current-gone d.pool s c r.2
    | inr n ↦ elim (Bool-cases (has s.id (remove_current_server d.pool).servers)) [
      | inl q ↦ (let a = has-remove_current s.id d.pool q in ground arith)
      | inr q ↦ q
    ]
  ]

  still_left :
      (s : Server) (d : Dialer) (i : ℕ)
      → Ready s d
      → has i (counted_pool s d).servers ≡ true
      → update d.reconnects s.id (suc (d.reconnects s.id)) i < m
  still_left s d i r h = choose (gives_up o.max_reconnect_attempts (suc (d.reconnects s.id))) refl h
    where
      choose :
          (b : Bool)
          → gives_up o.max_reconnect_attempts (suc (d.reconnects s.id)) ≡ b
          → has i (if b then remove_current_server d.pool else d.pool).servers ≡ true
          → update d.reconnects s.id (suc (d.reconnects s.id)) i < m
      choose true q h =
          let a = r.1 i (has-remove_current i d.pool h) in
          elim (Bool-cases (s.id == i)) [
            | inl p ↦
                let f : s.id ≡ i = ground arith in
                let n = ap (λ k. has k (remove_current_server d.pool).servers) f in
                absurd (let g = gone s d r in ground arith)
            | inr p ↦ rw p a
          ]
      choose false q h =
          let a = r.1 i h in
          let g : leb m (suc (d.reconnects s.id)) ≡ false =
            subst (λ z. gives_up z (suc (d.reconnects s.id)) ≡ false) e q in
          ground arith

  count_attempt-Counted :
      (s : Server) (d : Dialer) → Ready s d → Dials s d → Counted (count_attempt o s d)
  unfolding count_attempt
  count_attempt-Counted s d r g = (
    g,
    λ i. (let a = r.0 i in let b = r.3 in ground arith),
    λ i h. still_left s d i r h,
    unique_pool (gives_up o.max_reconnect_attempts (suc (d.reconnects s.id))),
  )
    where
      unique_pool : (b : Bool) → Unique (if b then remove_current_server d.pool else d.pool).servers
      unique_pool true = Unique-remove_current d.pool r.2
      unique_pool false = r.2

  removed-Ready :
      (s : Server) (d : Dialer)
      → Ready s d
      → Ready s (record (d) { pool = remove_current_server d.pool })
  removed-Ready s d r = (
    r.0,
    λ i h. r.1 i (has-remove_current i d.pool h),
    Unique-remove_current d.pool r.2,
    r.3,
    inr (gone s d r),
  )

  pub fail_dial-Counted :
      (s : Server) (d : Dialer) → Limited o d → Ready s d → Dials s d → Counted (fail_dial o s d)
  unfolding fail_dial
  fail_dial-Counted s d lim r g = choose d.connected_once o.wait_on_first_connect lim
    where
      choose :
          (a b : Bool)
          → (a ≡ true) ⊎ (b ≡ false)
          → Counted (
              if a
              then count_attempt o s d
              else if b
              then d
              else count_attempt o s (record (d) { pool = remove_current_server d.pool }))
      choose true b l = count_attempt-Counted s d r g
      choose false true (inl l) = absurd (ground arith)
      choose false true (inr l) = absurd (ground arith)
      choose false false l =
          count_attempt-Counted s (record (d) { pool = remove_current_server d.pool })
            (removed-Ready s d r) g

  -- What holds of a turn: the counts, or at least the bound when the loop has ended.
  abbrev pub Bounded : Dialer → Type 0
  Bounded d = (i : ℕ) → times i d.dials + start i ≤ m

  abbrev pub Fits : Turned → Type 0
  Fits (goes_on d) = Counted d × (d.pool.first_select ≡ false) × Limited o d
  Fits (connected d) = Bounded d
  Fits (threw x d) = Bounded d

  pub Counted-Bounded : (d : Dialer) → Counted d → Bounded d
  Counted-Bounded d c i = let a = c.0 i in let b = c.1 i in omega arith
