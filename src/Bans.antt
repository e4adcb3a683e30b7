-- ===== src/Bans.antt =====
-- gateway/src/db/persist.ts: the bans and the profiles, in memory and in their files. A file is
-- what `JSON.parse` makes of it; `JSON.stringify` of an object of records is that object. Times are
-- `Date.now()`. The append-only event log is input and output alone, and is left out.
pub mod Restart
pub mod Profiles
use x402_health_oracle.Prelude.{
  ℕ, ◌+◌, Bool, true, false, not, List, [], ◌∷◌, map, keep, ltb, Text, text_Eq,
}
use x402_health_oracle.Prelude.Dict.{Dict, put, retain}

pub record BanRecord : Type 0 where
  pub reason : Text
  pub ts : ℕ
  pub expires : ℕ

-- What stands in a file: nothing, no JSON, a JSON value of another form, or an object.
pub data File {ℓ} (R : Type ℓ) : Type ℓ where
  missing : File R
  no_json : File R
  other_json : File R
  object : Dict Text R → File R

pub record BanStore : Type 0 where
  pub bans : Dict Text BanRecord
  pub file : File BanRecord

pub record ActiveBan : Type 0 where
  pub ip : Text
  pub reason : Text
  pub ts : ℕ

abbrev pub parsed_bans : File BanRecord → Dict Text BanRecord
parsed_bans (object bans) = bans
parsed_bans missing = []
parsed_bans no_json = []
parsed_bans other_json = []

-- `_saveBans()`
unfoldable pub save_bans : Dict Text BanRecord → BanStore
save_bans bans = record { bans = bans; file = object bans }

-- The module's start: load, drop what is over, save.
unfoldable pub load_bans : ℕ → File BanRecord → BanStore
load_bans now file = save_bans (retain (λ v. not (ltb v.expires now)) (parsed_bans file))

unfoldable pub clear_bans : BanStore → BanStore
clear_bans s = save_bans []

unfoldable pub persist_ban : BanStore → Text → Text → ℕ → ℕ → BanStore
persist_ban s ip reason ttl_ms now =
    save_bans (put ip (record { reason = reason; ts = now; expires = now + ttl_ms }) s.bans)

abbrev pub to_active : Text × BanRecord → ActiveBan
to_active (ip, v) = record { ip = ip; reason = v.reason; ts = v.ts }

unfoldable pub load_active_bans : BanStore → ℕ → List ActiveBan
load_active_bans s now = map to_active (keep (λ entry. ltb now entry.1.expires) s.bans)
