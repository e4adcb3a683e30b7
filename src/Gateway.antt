-- ===== src/Gateway.antt =====
-- gateway/server.ts: the state that the handlers share, and the handlers. A handler takes the parts
-- of the state that it uses and returns them changed. What it writes to the log, to the console and
-- to the web sockets is left out. The readings of the clock between two waits are one argument.
pub mod Cache
pub mod Request
pub mod Guard
pub mod Filter
pub mod Stall
pub mod Pow
pub mod Rate
pub mod Enclave
pub mod Health
pub mod Handshake
pub mod Phoenix
pub mod Registry
pub mod Assess
pub mod Measure
pub mod Admin
mod Tests
