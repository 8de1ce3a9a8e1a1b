-- ===== src/Dial/Fits.antt =====
-- What a dial does to the counts of the dial loop of core/src/protocol.ts.
use mathlib.Core.Path.{subst}
use nats_js.Base.{
  sym, ℕ, ◌+◌, ◌<◌, ◌≡◌, refl, ap, ◌∙◌, arith, Bool, true, false, ◌||◌, Option, none, some, List,
  [], ◌∷◌, ◌++◌, ◌==◌, if◌then◌else◌, pos, inl, inr, Bool-cases, Text,
}
use nats_js.Pool.{Servers, Server, same, set_current, find, snapshot_for_handler}
use nats_js.Dial.{
  Still, update, Options, Dialer, Turn, Turned, goes_on, threw, connected, Picked, throws, keeps,
  picks, no_server, is_due, fail_dial, end_dial, dial, dial_found, dial_picked, dial_selected,
  wait_for, turn_selected,
}
use nats_js.Dial.Weights.{has}
use nats_js.Dial.Turns.{Limited}
use nats_js.Dial.Turns.{fail_dial-Keeps}
use nats_js.Dial.Progress.{find_in-has}
use nats_js.Pool.{find_in}
use nats_js.Dial.Attempts.{
  times-snoc, Counted, Ready, Dials, Fits, fail_dial-Counted, Counted-Bounded,
}

module _ (m : ℕ) (o : Options) (e : o.max_reconnect_attempts ≡ pos m) (start : ℕ → ℕ) where
  end_dial-Fits :
      (t : Turn) (s : Server) (d : Dialer)
      → Limited o d
      → d.pool.first_select ≡ false
      → Ready m o e start s d
      → Dials m o e start s d
      → Fits m o e start (end_dial o t s d)
  unfolding end_dial
  end_dial-Fits t s d lim f r g = choose t.result
    where
      choose :
          (x : Option ℕ)
          → Fits m o e start (elim x as (λ _. Turned) [
            | none ↦
                connected
                  (record (d) { connected_once = true; reconnects = update d.reconnects s.id 0 })
            | some x ↦ goes_on (
                fail_dial o s (record (d) {
                  loop_error = some x;
                  last_error = t.kept_error;
                  abort_reconnect = d.abort_reconnect || t.aborts;
                }))
          ])
      choose none = λ i. (let a = g i in let b = r.0 i in let c = r.3 in ground arith)
      choose (some x) =
          let d' : Dialer = record (d) {
            loop_error = some x;
            last_error = t.kept_error;
            abort_reconnect = d.abort_reconnect || t.aborts;
          } in
          let k = fail_dial-Keeps o s d' in
          (
            fail_dial-Counted m o e start s d' lim r g,
            k.2 ∙ f,
            elim lim as (λ _. Limited o (fail_dial o s d')) [
              | inl q ↦ inl (k.3 ∙ q)
              | inr q ↦ inr q
            ],
          )

  -- A target that may be dialed.
  abbrev pub May : Server → Dialer → Type 0
  May s d =
      Counted m o e start d
      × Limited o d
      × (d.pool.first_select ≡ false)
      × (d.reconnects s.id < m)
      × (d.pool.current ≡ some s)

  dial-Fits :
      (t : Turn) (still : Still t) (s : Server) (extra : ℕ) (d : Dialer)
      → May s d
      → Fits m o e start (dial o t s extra d)
  unfolding dial
  dial-Fits t still s extra d (c, lim, f, l, q) =
      let at = d.clock + extra + t.late in
      let there = λ (news : Servers → Servers). record (d) {
        last_connect = update d.last_connect s.id at;
        clock = at + t.dialing;
        pool = news d.pool;
        dials = d.dials ++ s.id ∷ [];
      } in
      subst (λ news. Fits m o e start (end_dial o t s (there news))) (sym still)
        (end_dial-Fits t s (there (λ p. p)) lim f (c.1, c.2, c.3, l, inl q)
          (λ i.
            (let a = c.0 i in
              let b = times-snoc i s.id d.dials in
              elim (Bool-cases (s.id == i)) [
                | inl p ↦
                    (let w : s.id ≡ i = ground arith in let z = ap d.reconnects w in ground arith)
                | inr p ↦ ground arith
              ])))

  dial_found-Fits :
      (t : Turn) (still : Still t) (s : Server) (extra : ℕ) (l : Text) (d : Dialer)
      → May s d
      → Fits m o e start (dial_found o t s extra (find_in l d.pool.servers) d)
  unfolding dial_found set_current
  dial_found-Fits t still s extra l d a = choose (find_in l d.pool.servers) refl
    where
      pick :
          (b : Bool) (x : Server)
          → has x.id d.pool.servers ≡ true
          → Fits m o e start (
              if b
              then dial o t s extra d
              else dial o t x extra (record (d) { pool = set_current x d.pool }))
      pick true x h = dial-Fits t still s extra d a
      pick false x h =
          dial-Fits t still x extra (record (d) { pool = set_current x d.pool })
            (a.0, a.1, a.2, a.0.2 x.id h, refl)

      choose :
          (r : Option Server)
          → find_in l d.pool.servers ≡ r
          → Fits m o e start (dial_found o t s extra r d)
      choose none q = Counted-Bounded m o e start d a.0
      choose (some x) q = pick (same x s) x (find_in-has l d.pool.servers x q)

  dial_picked-Fits :
      (t : Turn) (still : Still t) (s : Server) (p : Picked) (d : Dialer)
      → May s d
      → Fits m o e start (dial_picked o t s p d)
  unfolding dial_picked find
  dial_picked-Fits t still s throws d a = Counted-Bounded m o e start d a.0
  dial_picked-Fits t still s keeps d a = dial-Fits t still s 0 d a
  dial_picked-Fits t still s (picks x extra) d a = dial_found-Fits t still s extra x.listen d a

  dial_selected-Fits :
      (t : Turn) (still : Still t) (s : Server) (d : Dialer)
      → May s d
      → Fits m o e start (dial_selected o t s d)
  unfolding dial_selected
  dial_selected-Fits t still s d a = choose t.pick
    where
      choose :
          (p : Option (List Server → Picked))
          → Fits m o e start (elim p as (λ _. Turned) [
            | none ↦ dial o t s 0 d
            | some f ↦ dial_picked o t s (f (snapshot_for_handler d.pool)) d
          ])
      choose none = dial-Fits t still s 0 d a
      choose (some f) = dial_picked-Fits t still s (f (snapshot_for_handler d.pool)) d a

  pub turn_selected-Fits :
      (t : Turn) (still : Still t) (w : ℕ) (s : Server) (d : Dialer)
      → May s d
      → Fits m o e start (turn_selected o t w (some s) d)
  unfolding turn_selected wait_for
  turn_selected-Fits t still w s d a =
      choose d.abort_reconnect (is_due (d.last_connect s.id) w d.clock)
    where
      choose :
          (b c : Bool)
          → Fits m o e start (
              if b
              then threw (no_server d) d
              else if c
              then dial_selected o t s d
              else goes_on (wait_for t w s d))
      choose true c = Counted-Bounded m o e start d a.0
      choose false true = dial_selected-Fits t still s d a
      choose false false = (a.0, a.2, a.1)
