-- ===== src/Rhythm.antt =====
-- gateway/src/services/rhythmManager.ts. The module's map of sessions is explicit state; timings
-- are doubles, the pulse is whole microseconds. Each `Date.now()` is an argument.
pub mod Pulse
pub mod Session
pub mod Update
pub mod Trust
mod Tests
