-- ===== src/Dial/Ending.antt =====
-- The dial loop of core/src/protocol.ts comes to an end.
use nats_js.Base.{ℕ, zero, suc, ◌+◌, ◌-◌, ◌*◌, ◌≤◌, ◌<◌, ◌≡◌, refl, arith, pos, inl, inr}
use nats_js.Dial.{Still, Options, Dialer, Turn, Turned, goes_on, threw, connected, turn}
use nats_js.Dial.Turns.{Limited}
use nats_js.Dial.Progress.{Past}
use nats_js.Dial.{dial_loop}
use nats_js.Dial.Moves.{AtMost, Moved, chances, turn-Moved}

abbrev pub IsEnded : Turned → Type 0
IsEnded (goes_on d) = ⊥
IsEnded (connected d) = Unit
IsEnded (threw x d) = Unit

module _ (m : ℕ) (o : Options) (e : o.max_reconnect_attempts ≡ pos m) where
  -- A chance that is gone pays for all the time that can pass before the next one.
  paid : (a b w t f : ℕ) → a < b → b * suc w + t < suc f → a * suc w + w < f
  paid a b w t f h g = grind arith

  -- Time that has passed pays for itself.
  passed : (a b w t u f : ℕ) → a ≤ b → t < u → b * suc w + u < suc f → a * suc w + t < f
  passed a b w t u f h k g = grind arith

  module _ (turns : ℕ → Turn) (w : ℕ) (still : (i : ℕ) → Still (turns i))
      (small : (i : ℕ) → AtMost w (turns i).wait) where
    -- What the loop is left with on the given fuel, when no dial is later than `l`.
    abbrev Fueled : ℕ → ℕ → Dialer → Type 0
    Fueled fuel l d =
        Limited o d
        × Past d
        × ((j : ℕ) → d.last_connect j ≤ l)
        × (l ≤ d.clock)
        × (chances m d * suc w + (l + w - d.clock) < fuel)

    Moved-Fueled :
        (fuel l : ℕ) (d d' : Dialer)
        → Fueled (suc fuel) l d
        → Moved m o e l w d d'
        → (k : ℕ) × Fueled fuel k d'
    Moved-Fueled fuel l d d' f (lim, inl (c, past)) =
        let y = paid (chances m d') (chances m d) w (l + w - d.clock) fuel c f.4 in
        let z : d'.clock + w - d'.clock ≡ w = omega arith in
        (d'.clock, (lim, past, past, omega arith, rw z y))
    Moved-Fueled fuel l d d' f (lim, inr (c, q, t, u)) =
        let low : (j : ℕ) → d'.last_connect j ≤ l = λ j. rw q (f.2 j) in
        let le : l ≤ d'.clock = omega (arith, f.3) in
        (
          l,
          (
            lim,
            λ j. (let a = low j in omega arith),
            low,
            le,
            passed (chances m d') (chances m d) w (l + w - d'.clock) (l + w - d.clock) fuel c
                (omega arith) f.4,
          ),
        )

    step-IsEnded :
        (fuel i l : ℕ) (d : Dialer)
        → ((k : ℕ) (d' : Dialer) → Fueled fuel k d' → IsEnded (dial_loop fuel o turns (suc i) d'))
        → Fueled (suc fuel) l d
        → IsEnded (dial_loop (suc fuel) o turns i d)
    unfolding dial_loop
    step-IsEnded fuel i l d ih f = choose (turn o (turns i) d) refl
      where
        choose :
            (r : Turned)
            → turn o (turns i) d ≡ r
            → IsEnded (elim r as (λ _. Turned) [
              | goes_on d' ↦ dial_loop fuel o turns (suc i) d'
              | connected d' ↦ connected d'
              | threw x d' ↦ threw x d'
            ])
        choose (connected x) q = tt
        choose (threw y x) q = tt
        choose (goes_on d') q =
            let g =
              Moved-Fueled fuel l d d' f
                (turn-Moved m o e (turns i) (still i) l w d d' f.0 f.1 f.2 (small i) q) in
            ih g.0 d' g.1

    dial_loop-IsEnded :
        (fuel i l : ℕ) (d : Dialer) → Fueled fuel l d → IsEnded (dial_loop fuel o turns i d)
    unfolding dial_loop
    dial_loop-IsEnded zero i l d f = absurd (omega (arith, f.4))
    dial_loop-IsEnded (suc fuel) i l d f =
        step-IsEnded fuel i l d (λ k d' g. dial_loop-IsEnded fuel (suc i) k d' g) f

    -- With a limit of attempts, delays of at most `w`, and infos that leave the pool as it is, as they do with
    -- ignoreClusterUpdates, the dial loop connects or throws within the turns
    -- that the attempts left and the delays allow: if the client was connected before or does not wait for
    -- a first connection, and no server was dialed later than now.
    pub dial_loop_ends :
        (i : ℕ) (d : Dialer)
        → Limited o d
        → Past d
        → IsEnded (dial_loop (suc (chances m d * suc w + w)) o turns i d)
    dial_loop_ends i d lim past =
        let z : d.clock + w - d.clock ≡ w = omega arith in
        dial_loop-IsEnded (suc (chances m d * suc w + w)) i d.clock d
          (lim, past, past, omega arith, rw z (omega arith))
