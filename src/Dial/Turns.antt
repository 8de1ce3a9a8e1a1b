-- ===== src/Dial/Turns.antt =====
-- What a turn of the dial loop of core/src/protocol.ts takes from the attempts that are left.
use mathlib.Core.Path.{subst}
use nats_js.Base.{
  ℕ, suc, ◌≤◌, ◌<◌, ◌≡◌, refl, ◌∙◌, arith, Bool, true, false, none, some, leb, if◌then◌else◌, pos,
  inl, inr, ◌⊎◌, Bool-cases,
}
use nats_js.Pool.{Server, Servers, remove_server, remove_current_server}
use nats_js.Dial.{update, gives_up, Options, Dialer, count_attempt, fail_dial}
use nats_js.Dial.Weights.{
  has, total, total-remove_current, total-remove_current_lt, total-update, total-update_lt,
}

-- Either the client was connected before, or it does not wait for a first connection.
abbrev pub Limited : Options → Dialer → Type 0
Limited o d = (d.connected_once ≡ true) ⊎ (o.wait_on_first_connect ≡ false)

-- What a failed dial keeps.
abbrev pub Keeps : Dialer → Dialer → Type 0
Keeps d d' =
    (d'.last_connect ≡ d.last_connect)
    × (d'.clock ≡ d.clock)
    × (d'.pool.first_select ≡ d.pool.first_select)
    × (d'.connected_once ≡ d.connected_once)

remove_current-first : (p : Servers) → (remove_current_server p).first_select ≡ p.first_select
unfolding remove_current_server remove_server
remove_current-first p =
    elim (p.current) as (λ c. (remove_server c p).first_select ≡ p.first_select) [
      | none ↦ refl
      | some c ↦ refl
    ]

if-first :
    (b : Bool) (p : Servers)
    → (if b then remove_current_server p else p).first_select ≡ p.first_select
if-first true p = remove_current-first p
if-first false p = refl

count_attempt-Keeps : (o : Options) (s : Server) (d : Dialer) → Keeps d (count_attempt o s d)
unfolding count_attempt
count_attempt-Keeps o s d = (
  refl,
  refl,
  if-first (gives_up o.max_reconnect_attempts (suc (d.reconnects s.id))) d.pool,
  refl,
)

pub fail_dial-Keeps : (o : Options) (s : Server) (d : Dialer) → Keeps d (fail_dial o s d)
unfolding fail_dial
fail_dial-Keeps o s d = choose d.connected_once o.wait_on_first_connect
  where
    choose :
        (a b : Bool)
        → Keeps d (
            if a
            then count_attempt o s d
            else if b
            then d
            else count_attempt o s (record (d) { pool = remove_current_server d.pool }))
    choose true b = count_attempt-Keeps o s d
    choose false true = (refl, refl, refl, refl)
    choose false false =
        let k = count_attempt-Keeps o s (record (d) { pool = remove_current_server d.pool }) in
        (k.0, k.1, k.2 ∙ remove_current-first d.pool, k.3)

module _ (m : ℕ) where
  abbrev pub left : Dialer → ℕ
  left d = total m d.reconnects d.pool.servers

  count_attempt-le : (o : Options) (s : Server) (d : Dialer) → left (count_attempt o s d) ≤ left d
  unfolding count_attempt
  count_attempt-le o s d =
      elim (Bool-cases (gives_up o.max_reconnect_attempts (suc (d.reconnects s.id)))) [
        | inl q ↦
            rw (q, count_attempt)
              (omega (
                arith,
                total-remove_current m (update d.reconnects s.id (suc (d.reconnects s.id))) d.pool,
                total-update m d.reconnects s.id d.pool.servers,
              ))
        | inr q ↦ rw (q, count_attempt) (total-update m d.reconnects s.id d.pool.servers)
      ]

  count_attempt-lt :
      (o : Options) (s c : Server) (d : Dialer)
      → o.max_reconnect_attempts ≡ pos m
      → d.pool.current ≡ some c
      → has s.id d.pool.servers ≡ true
      → left (count_attempt o s d) < left d
  unfolding count_attempt
  count_attempt-lt o s c d e cur h =
      elim (Bool-cases (gives_up o.max_reconnect_attempts (suc (d.reconnects s.id)))) [
        | inl q ↦
            rw (q, count_attempt)
              (omega (
                arith,
                total-remove_current_lt m (update d.reconnects s.id (suc (d.reconnects s.id)))
                    d.pool c s.id cur h,
                total-update m d.reconnects s.id d.pool.servers,
              ))
        | inr q ↦
            let g : leb m (suc (d.reconnects s.id)) ≡ false =
              subst (λ z. gives_up z (suc (d.reconnects s.id)) ≡ false) e q in
            rw (q, count_attempt)
              (total-update_lt m d.reconnects s.id d.pool.servers h (ground arith))
      ]

  pub fail_dial-le : (o : Options) (s : Server) (d : Dialer) → left (fail_dial o s d) ≤ left d
  unfolding fail_dial
  fail_dial-le o s d = choose d.connected_once o.wait_on_first_connect
    where
      choose :
          (a b : Bool)
          → left (
              if a
              then count_attempt o s d
              else if b
              then d
              else count_attempt o s (record (d) { pool = remove_current_server d.pool }))
            ≤ left d
      choose true b = count_attempt-le o s d
      choose false true = omega arith
      choose false false = omega (
        arith,
        count_attempt-le o s (record (d) { pool = remove_current_server d.pool }),
        total-remove_current m d.reconnects d.pool,
      )

  pub fail_dial-lt :
      (o : Options) (s c : Server) (d : Dialer)
      → o.max_reconnect_attempts ≡ pos m
      → Limited o d
      → d.pool.current ≡ some c
      → has s.id d.pool.servers ≡ true
      → left (fail_dial o s d) < left d
  unfolding fail_dial
  fail_dial-lt o s c d e lim cur h = choose d.connected_once o.wait_on_first_connect lim
    where
      choose :
          (a b : Bool)
          → (a ≡ true) ⊎ (b ≡ false)
          → left (
              if a
              then count_attempt o s d
              else if b
              then d
              else count_attempt o s (record (d) { pool = remove_current_server d.pool }))
            < left d
      choose true b l = count_attempt-lt o s c d e cur h
      choose false true (inl l) = absurd (ground arith)
      choose false true (inr l) = absurd (ground arith)
      choose false false l = omega (
        arith,
        count_attempt-le o s (record (d) { pool = remove_current_server d.pool }),
        total-remove_current_lt m d.reconnects d.pool c s.id cur h,
      )
