-- ===== src/Trust.antt =====
-- `Signals` is gateway/src/services/trustSignals.ts, `Engine` gateway/src/services/trustEngine.ts.
pub mod Engine
pub mod Signals
pub mod Verdicts
mod Tests
