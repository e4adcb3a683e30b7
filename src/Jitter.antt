-- ===== src/Jitter.antt =====
-- gateway/src/services/jitterProbe.ts
pub mod Verdict
pub mod Workload
