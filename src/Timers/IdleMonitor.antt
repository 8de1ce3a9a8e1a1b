-- ===== src/Timers/IdleMonitor.antt =====
-- core/src/idleheartbeat_monitor.ts: counts the intervals without work, and reports when there are too
-- many. The clock and the answer of the callback are arguments of the timer's function.
use nats_js.Base.{
  ◌≡◌, refl, ap, ◌∙◌, arith, ℕ, ◌+◌, ◌-◌, ◌≤◌, ◌<◌, Bool, true, false, List, [], ◌∷◌, ◌++◌, ◌==◌,
  ltb, leb, if◌then◌else◌,
}

-- `timer` and `auto_cancel_timer` say whether the timers are set, and `reports` are the arguments of
-- the calls of `callback`.
pub record Monitor : Type 0 where
  pub interval : ℕ
  pub max_out : ℕ
  pub cancel_after : ℕ
  pub timer : Bool
  pub auto_cancel_timer : Bool
  pub last : ℕ
  pub missed : ℕ
  pub count : ℕ
  pub reports : List ℕ

-- `_schedule`
unfoldable pub schedule : Monitor → Monitor
schedule m = record m {
  auto_cancel_timer = if ltb 0 m.cancel_after then true else m.auto_cancel_timer;
  timer = true;
}

-- `opts?.maxOut || 2`
unfoldable pub or_two : ℕ → ℕ
or_two n = if n == 0 then 2 else n

-- The constructor; a missing option is 0, which counts as missing.
unfoldable pub new_monitor : ℕ → ℕ → ℕ → ℕ → Monitor
unfolding schedule or_two
new_monitor interval max_out cancel_after now = schedule (record {
  interval = interval;
  max_out = or_two max_out;
  cancel_after = cancel_after;
  timer = false;
  auto_cancel_timer = false;
  last = now;
  missed = 0;
  count = 0;
  reports = [];
})

unfoldable pub cancel : Monitor → Monitor
cancel m = record m { timer = false; auto_cancel_timer = false; missed = 0 }

unfoldable pub work : ℕ → Monitor → Monitor
work now m = record m { last = now; missed = 0 }

unfoldable pub restart : Monitor → Monitor
unfolding cancel schedule
restart m = schedule (cancel m)

unfoldable pub change : ℕ → ℕ → ℕ → Monitor → Monitor
unfolding restart
change interval cancel_after max_out m =
    restart (record m { interval = interval; max_out = max_out; cancel_after = cancel_after })

-- The function of the interval timer, at the time `now`. `stop` is whether the callback returns true;
-- a callback that throws is logged, and counts as one that does not.
unfoldable pub fire : ℕ → Bool → Monitor → Monitor
unfolding cancel
fire now stop m =
    let counted = record m {
      count = m.count + 1;
      missed = if ltb m.interval (now - m.last) then m.missed + 1 else m.missed;
    } in
    if leb m.max_out counted.missed
    then (let told = record counted { reports = counted.reports ++ counted.missed ∷ [] } in
        if stop then cancel told else told)
    else counted

-- The events of a monitor's life.
pub data Tick : Type 0 where
  worked : ℕ → Tick
  fired : ℕ → Bool → Tick

unfoldable pub after : Tick → Monitor → Monitor
unfolding work fire
after (worked now) m = work now m
after (fired now stop) m = fire now stop m

unfoldable pub after_all : List Tick → Monitor → Monitor
after_all [] m = m
after_all (t ∷ ts) m = after_all ts (after t m)

-- The firings, at the ends of the list, that came later than an interval after the last work.
abbrev pub late : ℕ → ℕ → List Tick → ℕ → ℕ
late interval last [] missed = missed
late interval last (worked now ∷ ts) missed = late interval now ts 0
late interval last (fired now stop ∷ ts) missed =
    late interval last ts (if ltb interval (now - last) then missed + 1 else missed)

-- The callback never asks to stop.
abbrev pub GoesOn : List Tick → Type 0
GoesOn [] = Unit
GoesOn (worked now ∷ ts) = GoesOn ts
GoesOn (fired now stop ∷ ts) = (stop ≡ false) × GoesOn ts

fire_goes_on :
    (now : ℕ) (m : Monitor)
    → ((fire now false m).missed
        ≡ (if ltb m.interval (now - m.last) then m.missed + 1 else m.missed))
      × ((fire now false m).last ≡ m.last)
      × ((fire now false m).interval ≡ m.interval)
unfolding fire
fire_goes_on now m = ground arith

-- As long as the callback does not ask to stop, `missed` is the number of firings that came more than an
-- interval after the last work, counted from that work on.
pub missed-after_all :
    (ts : List Tick) (m : Monitor)
    → GoesOn ts
    → (after_all ts m).missed ≡ late m.interval m.last ts m.missed
unfolding after_all after
missed-after_all [] m g = refl
missed-after_all (worked now ∷ ts) m g = missed-after_all ts (work now m) g
missed-after_all (fired now stop ∷ ts) m g =
    let one = fire_goes_on now m in
    ap (λ b. (after_all ts (fire now b m)).missed) g.0
    ∙ missed-after_all ts (fire now false m) g.1
    ∙ ap (λ i. late i (fire now false m).last ts (fire now false m).missed) one.2
    ∙ ap (λ l. late m.interval l ts (fire now false m).missed) one.1
    ∙ ap (λ k. late m.interval m.last ts k) one.0

-- Firings with no work between them.
abbrev pub NoWork : List Tick → Type 0
NoWork [] = Unit
NoWork (worked now ∷ ts) = ⊥
NoWork (fired now stop ∷ ts) = NoWork ts

late-ge :
    (interval last : ℕ) (ts : List Tick) (missed : ℕ)
    → NoWork ts
    → missed ≤ late interval last ts missed
late-ge interval last [] missed h = omega arith
late-ge interval last (worked now ∷ ts) missed h = absurd h
late-ge interval last (fired now stop ∷ ts) missed h =
    ground
      (arith, late-ge interval last ts (if ltb interval (now - last) then missed + 1 else missed) h)

fire_quiet :
    (now : ℕ) (stop : Bool) (m : Monitor)
    → (if ltb m.interval (now - m.last) then m.missed + 1 else m.missed) < m.max_out
    → fire now stop m ≡ record m {
      count = m.count + 1;
      missed = if ltb m.interval (now - m.last) then m.missed + 1 else m.missed;
    }
unfolding fire
fire_quiet now stop m h = ground arith

-- Without work in between, nothing is reported while fewer than `maxOut` firings are late.
pub reports-after_all :
    (ts : List Tick) (m : Monitor)
    → NoWork ts
    → late m.interval m.last ts m.missed < m.max_out
    → (after_all ts m).reports ≡ m.reports
unfolding after_all after
reports-after_all [] m n h = refl
reports-after_all (worked now ∷ ts) m n h = absurd n
reports-after_all (fired now stop ∷ ts) m n h =
    let missed : ℕ = if ltb m.interval (now - m.last) then m.missed + 1 else m.missed in
    let one = fire_quiet now stop m (omega (arith, late-ge m.interval m.last ts missed n)) in
    ap (λ k. (after_all ts k).reports) one
    ∙ reports-after_all ts (record m { count = m.count + 1; missed = missed }) n h

-- A firing that brings the count to `maxOut` or beyond reports the count; if the callback returns true,
-- both timers are cleared and the count begins again.
pub fire_reports :
    (now : ℕ) (stop : Bool) (m : Monitor)
    → m.max_out ≤ m.missed + 1
    → m.interval < now - m.last
    → ((fire now stop m).reports ≡ m.reports ++ (m.missed + 1) ∷ [])
      × ((fire now stop m).missed ≡ (if stop then 0 else m.missed + 1))
      × ((fire now stop m).timer ≡ (if stop then false else m.timer))
unfolding fire
fire_reports now stop m h l = ground arith
