-- ===== src/Gateway/Pow.antt =====
-- The proof of work of gateway/server.ts: its state, and `/api/challenge` (below: Check and Verify,
-- `/api/verify-pow`). Argon2id is a parameter; the costs are doubles.
pub mod Check
pub mod Verify
pub mod Verified
pub mod Memory
pub mod Limit
pub mod Honest
use x402_health_oracle.Prelude.{
  ℕ, ◌+◌, ◌-◌, ◌*◌, Bool, true, false, ◌&&◌, ◌||◌, not, Option, none, some, List, [], ◌∷◌, ◌++◌,
  ◌==◌, leb, ltb, if◌then◌else◌, String, Text, codes, includes, to_lower, text_Eq, ◌===◌, length,
  take,
}
use x402_health_oracle.Prelude.Int.{ℤ, pos, negsuc, sub_ℕ}
use x402_health_oracle.Encoding.Decimal.{to_decimal}
use x402_health_oracle.Encoding.Hex.{is_hex}
use x402_health_oracle.Double.{Double, ◌⊖◌, ◌⊗◌, ◌⊘◌, ◌⊏◌, num, neg, min, max}
use x402_health_oracle.Automation.{AutomationFingerprint, detect_automation}
use x402_health_oracle.Bans.Profiles.{ProfileRecord, ProfileStore, persist_profile, load_profile}
use x402_health_oracle.Gateway.Cache.{Cache}
use x402_health_oracle.Gateway.Guard.{Guard, ban}

pub record Challenge (W : Type 0) : Type 0 where
  pub target : Text
  pub start_time : ℕ
  pub m_cost : W
  pub t_cost : W

-- The field `calcTime`: a number, or another value (a text, null, nothing) by the number that it is
-- compared as.
pub data CalcTime (W : Type 0) : Type 0 where
  number : W → CalcTime W
  compared_as : W → CalcTime W

pub record VerifiedPow (W : Type 0) : Type 0 where
  pub nonce : Text
  pub calc_time : CalcTime W
  pub m_cost : W
  pub verified_at : ℕ

pub record ArgonProfile (W : Type 0) : Type 0 where
  pub m_cost : W
  pub t_cost : W
  pub successes : ℕ

-- liveRules.argon2, as far as it is used
pub record ArgonRules (W : Type 0) : Type 0 where
  pub time : W
  pub memory : W

pub record Governor : Type 0 where
  pub count : ℕ
  pub last_reset : ℕ

module _ (c : Cache) (W : Type 0) where
  pub record PowState : Type 0 where
    pub governor : Governor
    pub pending : c.Store (Challenge W)
    pub verified : c.Store (VerifiedPow W)
    pub profiles : c.Store (ArgonProfile W)
    pub persisted : ProfileStore W

abbrev pub pow_limit_per_sec : ℕ
pow_limit_per_sec = 50

pub data ChallengeReply (W : Type 0) : Type 0 where
  too_many : ChallengeReply W
  challenge_issued : Text → W → W → ChallengeReply W

-- A second after the last reset the count starts again.
unfoldable pub refreshed : Governor → ℕ → Governor
refreshed g now =
    if ltb (g.last_reset + 1000) now then record { count = 0; last_reset = now } else g

abbrev pub profile_or : {W : Type 0} → Option (ArgonProfile W) → ArgonProfile W → ArgonProfile W
profile_or none given = given
profile_or (some p) _ = p

abbrev pub fresh_profile : {W : Type 0} → ArgonRules W → ArgonProfile W
fresh_profile rules = record { m_cost = rules.memory; t_cost = rules.time; successes = 0 }

module _ {c : Cache} {W : Type 0} where
  -- `/api/challenge`; `target` is the text of the 32 random bytes.
  unfoldable pub request_challenge :
      PowState c W → ArgonRules W → Text → Text → ℕ → PowState c W × ChallengeReply W
  unfolding refreshed
  request_challenge s rules ip target now =
      let g = refreshed s.governor now in
      let p = profile_or (c.get s.profiles ip now) (fresh_profile rules) in
      if leb pow_limit_per_sec g.count then (record s { governor = g }, too_many) else (
        record s {
          governor = record g { count = g.count + 1 };
          profiles = c.touch s.profiles ip now;
          pending =
              c.set s.pending ip
                (record { target = target; start_time = now; m_cost = p.m_cost; t_cost = p.t_cost })
                now;
        },
        challenge_issued target p.m_cost p.t_cost,
      )
