-- ===== src/Dial/Progress.antt =====
-- Each turn of the dial loop of core/src/protocol.ts that does not end it takes an attempt, or time.
use mathlib.Core.Path.{subst}
use nats_js.Base.{
  ◌∙◌, sym, ℕ, ◌+◌, ◌≤◌, ◌<◌, ◌≡◌, refl, ap, arith, Bool, true, false, ◌||◌, Option, none, some,
  List, [], ◌∷◌, ◌++◌, if◌then◌else◌, pos, inl, inr, ◌⊎◌, Bool-cases, Text, eq_text,
}
use nats_js.Pool.{Servers, Server, same, find_in, find, set_current, snapshot_for_handler}
use nats_js.Dial.{
  Still, update, Options, Dialer, Turn, Turned, goes_on, threw, connected, Picked, throws, keeps,
  picks, no_server, fail_dial, end_dial, dial, dial_found, dial_picked, dial_selected, is_due,
  wait_for, turn_selected,
}
use nats_js.Dial.Weights.{has}
use nats_js.Dial.Turns.{Limited, fail_dial-Keeps, left, fail_dial-le, fail_dial-lt}

-- No server was dialed after the clock.
abbrev pub Past : Dialer → Type 0
Past d = (i : ℕ) → d.last_connect i ≤ d.clock

-- The target is in the pool, and some server is the current one.
abbrev pub Target : Server → Dialer → Type 0
Target s d = (c : Server) × (d.pool.current ≡ some c) × (has s.id d.pool.servers ≡ true)

pub goes_on_inj : {d d' : Dialer} → goes_on d ≡ goes_on d' → d ≡ d'
goes_on_inj {d} e = ap (λ t. elim t [ goes_on x ↦ x | connected x ↦ d | threw r x ↦ d ]) e

pub find_in-has :
    (l : Text) (ss : List Server) (f : Server) → find_in l ss ≡ some f → has f.id ss ≡ true
find_in-has l [] f e = ground arith
find_in-has l (s ∷ ss) f e = elim (Bool-cases (eq_text s.listen l)) [
  | inl q ↦ (let p : s ≡ f = ground arith in ground (arith, ap (λ x. x.id) p))
  | inr q ↦ ground (arith, find_in-has l ss f)
]

-- What a search of the pool found is in it.
abbrev Found : Option Server → Dialer → Type 0
Found none d = Unit
Found (some x) d = has x.id d.pool.servers ≡ true

find-result : (s : Server) (d : Dialer) → Found (find s d.pool) d
unfolding find
find-result s d = choose (find_in s.listen d.pool.servers) refl
  where
    choose : (r : Option Server) → find_in s.listen d.pool.servers ≡ r → Found r d
    choose none q = tt
    choose (some x) q = find_in-has s.listen d.pool.servers x q

module _ (m : ℕ) (o : Options) (e : o.max_reconnect_attempts ≡ pos m) where
  -- A dial that failed, from the state before it.
  abbrev pub Dialed : Server → Dialer → Dialer → Type 0
  Dialed s d d' =
      Past d'
      × (d'.pool.first_select ≡ d.pool.first_select)
      × (d'.connected_once ≡ d.connected_once)
      × (left m d' ≤ left m d)
      × (Target s d → left m d' < left m d)

  end_dial-goes_on :
      (t : Turn) (s : Server) (d d' : Dialer)
      → Limited o d
      → Past d
      → end_dial o t s d ≡ goes_on d'
      → Dialed s d d'
  unfolding end_dial
  end_dial-goes_on t s d d' lim past h = choose t.result h
    where
      choose :
          (r : Option ℕ)
          → ◌≡◌ {A = Turned}
              (elim r as (λ _. Turned) [
                | none ↦
                    connected (record (d) {
                      connected_once = true;
                      reconnects = update d.reconnects s.id 0;
                    })
                | some x ↦ goes_on (
                    fail_dial o s (record (d) {
                      loop_error = some x;
                      last_error = t.kept_error;
                      abort_reconnect = d.abort_reconnect || t.aborts;
                    }))
              ])
              (goes_on d')
          → Dialed s d d'
      choose none h = ground arith
      choose (some x) h =
          let f : Dialer = record (d) {
            loop_error = some x;
            last_error = t.kept_error;
            abort_reconnect = d.abort_reconnect || t.aborts;
          } in
          let k = fail_dial-Keeps o s f in
          subst (Dialed s d) (goes_on_inj h) (
            λ i. (let a = ap (λ g. g i) k.0 in let b = k.1 in let c = past i in ground arith),
            k.2,
            k.3,
            fail_dial-le m o s f,
            λ g. fail_dial-lt m o s g.0 f e lim g.1 g.2,
          )

  dial-goes_on :
      (t : Turn) (still : Still t) (s : Server) (extra : ℕ) (d d' : Dialer)
      → Limited o d
      → Past d
      → dial o t s extra d ≡ goes_on d'
      → Dialed s d d'
  unfolding dial
  dial-goes_on t still s extra d d' lim past h =
      let at = d.clock + extra + t.late in
      let there = λ (news : Servers → Servers). record (d) {
        last_connect = update d.last_connect s.id at;
        clock = at + t.dialing;
        pool = news d.pool;
        dials = d.dials ++ s.id ∷ [];
      } in
      end_dial-goes_on t s (there (λ p. p)) d' lim (λ i. (let c = past i in ground arith))
        (ap (λ news. end_dial o t s (there news)) (sym still) ∙ h)

  dial_found-goes_on :
      (t : Turn) (still : Still t) (s : Server) (extra : ℕ) (r : Option Server) (d d' : Dialer)
      → Limited o d
      → Past d
      → Found r d
      → dial_found o t s extra r d ≡ goes_on d'
      → Dialed s d d'
  unfolding dial_found set_current
  dial_found-goes_on t still s extra none d d' lim past f h = ground arith
  dial_found-goes_on t still s extra (some x) d d' lim past f h = choose (same x s) h
    where
      choose :
          (b : Bool)
          → ◌≡◌ {A = Turned}
              (if b
                then dial o t s extra d
                else dial o t x extra (record (d) { pool = set_current x d.pool }))
              (goes_on d')
          → Dialed s d d'
      choose true h = dial-goes_on t still s extra d d' lim past h
      choose false h =
          let r =
            dial-goes_on t still x extra (record (d) { pool = set_current x d.pool }) d' lim past
              h in
          (r.0, r.1, r.2, r.3, λ _. r.4 (x, refl, f))

  dial_picked-goes_on :
      (t : Turn) (still : Still t) (s : Server) (p : Picked) (d d' : Dialer)
      → Limited o d
      → Past d
      → dial_picked o t s p d ≡ goes_on d'
      → Dialed s d d'
  unfolding dial_picked
  dial_picked-goes_on t still s throws d d' lim past h = ground arith
  dial_picked-goes_on t still s keeps d d' lim past h = dial-goes_on t still s 0 d d' lim past h
  dial_picked-goes_on t still s (picks x extra) d d' lim past h =
      dial_found-goes_on t still s extra (find x d.pool) d d' lim past (find-result x d) h

  dial_selected-goes_on :
      (t : Turn) (still : Still t) (s : Server) (d d' : Dialer)
      → Limited o d
      → Past d
      → dial_selected o t s d ≡ goes_on d'
      → Dialed s d d'
  unfolding dial_selected
  dial_selected-goes_on t still s d d' lim past h = choose t.pick h
    where
      choose :
          (p : Option (List Server → Picked))
          → ◌≡◌ {A = Turned}
              (elim p as (λ _. Turned) [
                | none ↦ dial o t s 0 d
                | some f ↦ dial_picked o t s (f (snapshot_for_handler d.pool)) d
              ])
              (goes_on d')
          → Dialed s d d'
      choose none h = dial-goes_on t still s 0 d d' lim past h
      choose (some f) h =
          dial_picked-goes_on t still s (f (snapshot_for_handler d.pool)) d d' lim past h

  -- A delay, from the state before it: the server was not due, and the clock moves.
  abbrev pub Waited : ℕ → Server → Dialer → Dialer → Type 0
  Waited w s d d' =
      (d'.last_connect ≡ d.last_connect)
      × (d'.pool ≡ d.pool)
      × (d'.reconnects ≡ d.reconnects)
      × (d'.connected_once ≡ d.connected_once)
      × (d.clock < d'.clock)
      × (d.clock < d.last_connect s.id + w)

  wait_for-Waited :
      (t : Turn) (w : ℕ) (s : Server) (d : Dialer)
      → Past d
      → is_due (d.last_connect s.id) w d.clock ≡ false
      → Waited w s d (wait_for t w s d)
  unfolding wait_for
  wait_for-Waited t w s d past q =
      let p = past s.id in (refl, refl, refl, refl, ground arith, ground arith)

  pub turn_selected-goes_on :
      (t : Turn) (still : Still t) (w : ℕ) (s : Server) (d d' : Dialer)
      → Limited o d
      → Past d
      → turn_selected o t w (some s) d ≡ goes_on d'
      → Dialed s d d' ⊎ Waited w s d d'
  unfolding turn_selected
  turn_selected-goes_on t still w s d d' lim past h =
      choose d.abort_reconnect (is_due (d.last_connect s.id) w d.clock) refl h
    where
      choose :
          (a b : Bool)
          → is_due (d.last_connect s.id) w d.clock ≡ b
          → ◌≡◌ {A = Turned}
              (if a
                then threw (no_server d) d
                else if b
                then dial_selected o t s d
                else goes_on (wait_for t w s d))
              (goes_on d')
          → Dialed s d d' ⊎ Waited w s d d'
      choose true b q h = ground arith
      choose false true q h = inl (dial_selected-goes_on t still s d d' lim past h)
      choose false false q h =
          inr (subst (Waited w s d) (goes_on_inj h) (wait_for-Waited t w s d past q))
