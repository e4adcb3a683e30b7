-- ===== src/Sniper/Blocklist.antt =====
-- `IpBlocklist` of gateway/src/sniper.ts. The injectable clock is the argument `now` of each call,
-- and a method returns the new map beside its result. Times are whole milliseconds.
pub mod History
use x402_health_oracle.Prelude.{
  ℕ, ◌+◌, String, Bool, true, false, none, some, ltb, if◌then◌else◌, string_Eq, length,
}
use x402_health_oracle.Prelude.Dict.{Dict, get, put, remove}

-- address → the time at which its block ends
abbrev pub Blocklist : Type 0
Blocklist = Dict String ℕ

unfoldable pub block : Blocklist → ℕ → String → ℕ → Blocklist
block m now ip duration_ms = put ip (now + duration_ms) m

-- An entry past its time is deleted when it is asked for.
unfoldable pub is_blocked : Blocklist → ℕ → String → Blocklist × Bool
is_blocked m now ip = elim (get ip m) [
  | none ↦ (m, false)
  | some expiry ↦ if ltb now expiry then (m, true) else (remove ip m, false)
]

unfoldable pub delete : Blocklist → String → Blocklist
delete m ip = remove ip m

unfoldable pub size : Blocklist → ℕ
size m = length m
