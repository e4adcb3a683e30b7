-- ===== src/Sniper/RequestLog.antt =====
-- `RequestLog` of gateway/src/sniper.ts: the last request times of each address, in milliseconds.
-- An interval is a difference of two times, and may be negative if the caller's clock goes back.
pub mod Intervals
use x402_health_oracle.Prelude.{
  ℕ, zero, suc, ◌+◌, ◌-◌, ◌≤◌, String, Bool, false, Option, none, some, List, [], ◌∷◌, ◌++◌, ltb,
  if◌then◌else◌, string_Eq, length, get_or,
}
use x402_health_oracle.Prelude.Int.{ℤ, sub_ℕ}
use x402_health_oracle.Prelude.Dict.{Dict, get, put, remove}

abbrev pub session_gap_ms : ℕ
session_gap_ms = 5000

abbrev pub max_samples : ℕ
max_samples = 20

abbrev pub min_samples : ℕ
min_samples = 7

abbrev pub RequestLog : Type 0
RequestLog = Dict String (List ℕ)

-- `this.log.get(ip) ?? []`
abbrev pub stored : Option (List ℕ) → List ℕ
stored none = []
stored (some timestamps) = timestamps

abbrev pub shift : List ℕ → List ℕ
shift [] = []
shift (_ ∷ rest) = rest

-- `timestamps.length > 0 && tsMs - timestamps[timestamps.length - 1] > SESSION_GAP_MS`
abbrev pub is_stale : ℕ → List ℕ → Bool
is_stale ts [] = false
is_stale ts (last ∷ []) = ltb (last + session_gap_ms) ts
is_stale ts (_ ∷ t ∷ rest) = is_stale ts (t ∷ rest)

-- The times kept with the new one.
unfoldable pub next_samples : ℕ → List ℕ → List ℕ
next_samples ts timestamps =
    let pushed = (if is_stale ts timestamps then [] else timestamps) ++ ts ∷ [] in
    if ltb max_samples (length pushed) then shift pushed else pushed

-- `for (let i = from; i < from + rounds; i++) intervals.push(timestamps[i] - timestamps[i - 1])`
unfoldable pub intervals_from : ℕ → ℕ → List ℕ → List ℤ
intervals_from zero i timestamps = []
intervals_from (suc rounds) i timestamps =
    sub_ℕ (get_or timestamps i 0) (get_or timestamps (i - 1) 0)
    ∷ intervals_from rounds (i + 1) timestamps

unfoldable pub record_request : RequestLog → String → ℕ → RequestLog × Option (List ℤ)
unfolding next_samples intervals_from
record_request log ip ts =
    let timestamps = next_samples ts (stored (get ip log)) in
    let len = length timestamps in
    (
      put ip timestamps log,
      if ltb len min_samples then none else some (intervals_from 5 (len - 5) timestamps),
    )

unfoldable pub reset : RequestLog → String → RequestLog
reset log ip = remove ip log
