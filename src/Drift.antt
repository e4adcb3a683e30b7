-- ===== src/Drift.antt =====
-- gateway/src/services/driftModel.ts
pub mod Quantile
pub mod Positions
pub mod PageHinkley
pub mod Threshold
pub mod Status
mod Tests
