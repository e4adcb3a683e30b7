-- ===== src/Gateway/Health.antt =====
-- The health decay of gateway/server.ts: how fresh the measurements of the probe are, what
-- `/api/health` says of it, and the mode that the time since the start sets. A batch that was
-- measured while the lattice cryptography ran is discarded.
use x402_health_oracle.Prelude.{
  ℕ, ◌+◌, ◌≤◌, ◌<◌, ◌≡◌, ◌↔◌, Bool, true, false, ◌==◌, ltb, if◌then◌else◌, arith,
}

pub data Health : Type 0 where
  operational degraded unavailable : Health

pub data Mode : Type 0 where
  idle stress sniper : Mode

pub record Probe : Type 0 where
  -- lastJitterTs; 0 stands for none
  pub last_jitter_ts : ℕ
  pub pqc_cooldown_until : ℕ
  pub mode : Mode
  pub sniper_armed : Bool

unfoldable pub get_health_status : ℕ → ℕ → Health
get_health_status last now =
    if last == 0
    then unavailable
    else if ltb now (last + 60000)
    then operational
    else if ltb now (last + 300000)
    then degraded
    else unavailable

-- Seconds since the start against 10 and 35.
unfoldable pub mode_at : ℕ → ℕ → Mode
mode_at start now =
    if ltb now (start + 10000) then idle else if ltb now (start + 35000) then stress else sniper

abbrev pub is_sniper : Mode → Bool
is_sniper idle = false
is_sniper stress = false
is_sniper sniper = true

-- What a message of the probe changes: a failed audit and a batch of the cooldown change nothing.
unfoldable pub on_probe_message : Probe → ℕ → Bool → ℕ → Probe
unfolding mode_at
on_probe_message p start integrity_failed now =
    if integrity_failed then p else if ltb now p.pqc_cooldown_until then p else record p {
      last_jitter_ts = now;
      mode = mode_at start now;
      sniper_armed = is_sniper (mode_at start now);
    }

-- `safe` is true or null.
pub record HealthReply : Type 0 where
  pub code : ℕ
  pub health : Health
  pub safe : Bool

abbrev pub is_operational : Health → Bool
is_operational operational = true
is_operational degraded = false
is_operational unavailable = false

abbrev pub status_code : Health → ℕ
status_code operational = 200
status_code degraded = 200
status_code unavailable = 503

-- `/api/health`
unfoldable pub health_route : Probe → ℕ → HealthReply
unfolding get_health_status
health_route p now =
    let health = get_health_status p.last_jitter_ts now in
    record { code = status_code health; health = health; safe = is_operational health }

-- After a batch that was taken outside the cooldown, and until the next one, the endpoint says
-- "safe" exactly for a minute and answers 503 exactly from five minutes on. The batch arms the
-- sniper exactly if it was taken 35 seconds or more after the start.
pub health_decays :
    (p : Probe) (start now u : ℕ)
    → 0 < now
    → p.pqc_cooldown_until ≤ now
    → let p' = on_probe_message p start false now in
      (((health_route p' u).safe ≡ true) ↔ (u < now + 60000))
      × (((health_route p' u).code ≡ 503) ↔ (now + 300000 ≤ u))
      × ((p'.sniper_armed ≡ true) ↔ (start + 35000 ≤ now))
unfolding health_route on_probe_message
health_decays p start now u pos warm = ground arith
