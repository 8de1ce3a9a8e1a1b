-- ===== src/Timers.antt =====
-- The timers that watch a connection and a consumer: core/src/heartbeats.ts and
-- core/src/idleheartbeat_monitor.ts.
pub mod Heartbeat
pub mod IdleMonitor
