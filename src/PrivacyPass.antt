-- ===== src/PrivacyPass.antt =====
-- gateway/src/services/privacyPass.ts: `Oprf` has the tokens, `Issuer` the issuer with its spent
-- set.
pub mod Oprf
pub mod Issuer
mod Tests
