-- ===== src/Sniper.antt =====
-- gateway/src/sniper.ts
pub mod Blocklist
pub mod RequestLog
pub mod Score
mod Tests
