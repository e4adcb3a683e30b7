-- ===== src/Gateway/Guard.antt =====
-- The bans of gateway/server.ts: `bannedIPs`, the store of db/persist.ts behind it, and the two
-- counters. Every detector bans by the same two calls, `ban`.
use x402_health_oracle.Prelude.{ℕ, ◌+◌, Bool, Text}
pub mod Lasting
use x402_health_oracle.Gateway.Cache.{Cache, has}
use x402_health_oracle.Bans.{BanStore, ActiveBan, persist_ban}
use x402_health_oracle.Prelude.{List, [], ◌∷◌}

pub record Ban : Type 0 where
  pub reason : Text
  pub ts : ℕ

module _ (c : Cache) where
  pub record Guard : Type 0 where
    pub banned : c.Store Ban
    pub bans : BanStore
    -- globalPassedCount and globalDroppedCount
    pub passed : ℕ
    pub dropped : ℕ

abbrev pub hour_ms : ℕ
hour_ms = 3600000

module _ {c : Cache} where
  abbrev pub is_banned : Guard c → Text → ℕ → Bool
  is_banned g ip now = has c g.banned ip now

  unfoldable pub ban : Guard c → Text → Text → ℕ → Guard c
  ban g ip reason now = record g {
    banned = c.set g.banned ip (record { reason = reason; ts = now }) now;
    bans = persist_ban g.bans ip reason hour_ms now;
  }

  abbrev pub count_dropped : Guard c → Guard c
  count_dropped g = record g { dropped = g.dropped + 1 }

  abbrev pub count_passed : Guard c → Guard c
  count_passed g = record g { passed = g.passed + 1 }

module _ (c : Cache) where
  -- The start: the cache is filled from the bans that are still active.
  unfoldable pub warm : c.Store Ban → List ActiveBan → ℕ → c.Store Ban
  warm s [] now = s
  warm s (b ∷ bans) now = warm (c.set s b.ip (record { reason = b.reason; ts = b.ts }) now) bans now
