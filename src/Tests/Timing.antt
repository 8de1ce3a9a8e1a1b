-- ===== src/Tests/Timing.antt =====
-- The timers of core/src/heartbeats.ts and core/src/idleheartbeat_monitor.ts.
use nats_js.Base.{◌≡◌, ◌≤◌, ◌+◌, refl, arith, true, false, [], ◌∷◌, ◌++◌}
use nats_js.Timers.Heartbeat
use nats_js.Timers.Heartbeat.{
  Heartbeat, new_heartbeat, start, Reaches, here, then_, Happens, status, disconnect, fires_n,
  pings, Reaches-pendings, fires_n-disconnect,
}
use nats_js.Timers.IdleMonitor.{
  Monitor, new_monitor, fired, worked, after_all, late, missed-after_all, reports-after_all,
}

abbrev begun : Heartbeat
begun = Heartbeat.start (new_heartbeat 2)

course : Reaches (new_heartbeat 2) (Heartbeat.reset (Heartbeat.fire (Heartbeat.fire begun)))
unfolding Heartbeat.start Heartbeat.fire
course =
    then_ (then_ (then_ (then_ here Happens.starts) (Happens.fires refl)) (Happens.fires refl))
      Happens.answered

Reaches-pendings_example :
    ((Heartbeat.reset (Heartbeat.fire (Heartbeat.fire begun))).pendings ≤ 2)
    × ((Heartbeat.reset (Heartbeat.fire (Heartbeat.fire begun))).max_out ≡ 2)
Reaches-pendings_example = Reaches-pendings 2 course

fires_n-disconnect_example :
    ((fires_n 2 begun).calls ≡ begun.calls ++ pings begun.pendings 2)
    × ((fires_n 3 begun).calls
        ≡ ((begun.calls ++ pings begun.pendings 2) ++ status (begun.max_out + 1) ∷ [])
          ++ disconnect ∷ [])
    × ((fires_n 3 begun).timer ≡ false)
    × ((fires_n 3 begun).pendings ≡ 0)
unfolding Heartbeat.start
fires_n-disconnect_example = fires_n-disconnect 2 begun refl

abbrev monitor : Monitor
monitor = new_monitor 100 3 0 0

missed-after_all_example :
    (after_all
      (fired 150 false ∷ worked 180 ∷ fired 300 false ∷ fired 400 false ∷ [])
      monitor).missed
    ≡ late monitor.interval monitor.last
        (fired 150 false ∷ worked 180 ∷ fired 300 false ∷ fired 400 false ∷ [])
        monitor.missed
missed-after_all_example =
    missed-after_all (fired 150 false ∷ worked 180 ∷ fired 300 false ∷ fired 400 false ∷ []) monitor
      (refl, (refl, (refl, tt)))

reports-after_all_example :
    (after_all (fired 150 true ∷ fired 250 false ∷ []) monitor).reports ≡ monitor.reports
unfolding new_monitor
reports-after_all_example =
    reports-after_all (fired 150 true ∷ fired 250 false ∷ []) monitor tt (omega arith)
