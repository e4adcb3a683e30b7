-- ===== src/Gateway/Admin.antt =====
-- The routes of gateway/server.ts for the machine's own callers, each of which is refused to every
-- other address: reset-bans, calibrate, check-ip, the clear routes, and `/api/sybil`. A field of a
-- body that is missing or not of the type that the code tests for is `none`; the settings of Argon2id
-- are numbers where they are given.
pub mod Reset
pub mod Cohort
pub mod Rules
use x402_health_oracle.Prelude.{
  ℕ, Bool, true, false, ◌&&◌, not, Option, none, some, List, [], if◌then◌else◌, Text,
}
use x402_health_oracle.Crypto.{Crypto}
use x402_health_oracle.Double.{Double, ◌⊏◌, ◌≐◌, num, is_nan}
use x402_health_oracle.Bans.{clear_bans}
use x402_health_oracle.Shadow.{ShadowState, clear_shadow_records}
use x402_health_oracle.Sybil.{
  SybilCluster, ClusterStats, hash_ip, ingest, flag, get_cohort_size, get_stats, clear,
}
use x402_health_oracle.Wallet.{Bindings, clear_bindings}
use x402_health_oracle.Zk.{Issued, clear_proofs}
use x402_health_oracle.Gateway.Cache.{Cache}
use x402_health_oracle.Gateway.Guard.{Guard, is_banned}
use x402_health_oracle.Gateway.Filter.{FilterState}
use x402_health_oracle.Gateway.Pow.{ArgonRules}
use x402_health_oracle.Gateway.Registry.{given}
use x402_health_oracle.Gateway.Request.{Request, is_local}

-- 403, 400, or the answer.
pub data LocalReply (A : Type 0) : Type 0 where
  forbidden : LocalReply A
  missing_field : LocalReply A
  answered : A → LocalReply A

-- The guard of every route here: only the machine itself gets further.
abbrev pub if_local : {S A : Type 0} → Request → S → S × LocalReply A → S × LocalReply A
if_local r s done = if is_local r then done else (s, forbidden)

module _ (c : Cache) (W : Type 0) where
  -- What a reset starts anew.
  pub record Resettable : Type 0 where
    pub guard : Guard c
    pub filter : FilterState W
    pub shadow : ShadowState

module _ {c : Cache} {W : Type 0} ⦃d : Double W⦄ where
  -- `/api/admin/reset-bans`
  unfoldable pub reset_bans : Resettable c W → Request → Resettable c W × LocalReply Unit
  reset_bans s r = if_local r s (
    record {
      guard = record {
        banned = c.clear s.guard.banned;
        bans = clear_bans s.guard.bans;
        passed = 0;
        dropped = 0;
      };
      filter = record (s.filter) { sybil = clear s.filter.sybil; request_log = [] };
      shadow = clear_shadow_records s.shadow;
    },
    answered tt,
  )

module _ {c : Cache} where
  -- `/api/check-ip`
  unfoldable pub check_ip : Guard c → Request → Option Text → ℕ → Guard c × LocalReply Bool
  check_ip g r ip now = if_local r g (elim (given ip) [
    | none ↦ (g, missing_field)
    | some address ↦ (g, answered (is_banned g address now))
  ])

-- liveRules
pub record LiveRules (W : Type 0) : Type 0 where
  pub sigma2 : W
  pub rho : W
  pub argon2 : ArgonRules W

-- The body of a calibration.
pub record Calibration (W : Type 0) : Type 0 where
  pub sigma2 : Option W
  pub rho : Option W
  pub time : Option W
  pub memory : Option W

module _ {W : Type 0} ⦃d : Double W⦄ where
  -- The given number where it passes the test.
  abbrev pub taken : (W → Bool) → Option W → W → W
  taken test none old = old
  taken test (some x) old = if test x then x else old

  abbrev pub is_positive : W → Bool
  is_positive x = num 0 ⊏ x

  abbrev pub is_fraction : W → Bool
  is_fraction x = (num 0 ⊏ x) && (x ⊏ num 1)

  abbrev pub is_truthy : W → Bool
  is_truthy x = not (is_nan x) && not (x ≐ num 0)

  -- `/api/admin/calibrate`
  unfoldable pub calibrate : LiveRules W → Request → Calibration W → LiveRules W × LocalReply Unit
  calibrate rules r body = if_local r rules (
    record {
      sigma2 = taken is_positive body.sigma2 rules.sigma2;
      rho = taken is_fraction body.rho rules.rho;
      argon2 = record {
        time = taken is_truthy body.time rules.argon2.time;
        memory = taken is_truthy body.memory rules.argon2.memory;
      };
    },
    answered tt,
  )

-- `/api/admin/clear-shadow`
unfoldable pub clear_shadow : ShadowState → Request → ShadowState × LocalReply Unit
clear_shadow s r = if_local r s (clear_shadow_records s, answered tt)

-- `/api/admin/clear-wallets`
unfoldable pub clear_wallets : Bindings → Request → Bindings × LocalReply Unit
clear_wallets b r = if_local r b (clear_bindings b, answered tt)

-- `/api/admin/clear-proofs`
unfoldable pub clear_issued : Issued → Request → Issued × LocalReply Unit
clear_issued issued r = if_local r issued (clear_proofs issued, answered tt)

module _ {W : Type 0} ⦃d : Double W⦄ (k : Crypto) (day : Text) where
  -- With the address and the intervals there.
  abbrev pub ingest_given :
      SybilCluster W → Text → List W → ℕ → SybilCluster W × LocalReply (ℕ × ClusterStats)
  ingest_given s ip intervals now =
      let s' = ingest s (hash_ip k day ip) intervals now in
      (s', answered (get_cohort_size s' (hash_ip k day ip), get_stats s'))

  -- `/api/sybil/ingest`
  unfoldable pub sybil_ingest :
      SybilCluster W
      → Request
      → Option Text
      → Option (List W)
      → ℕ
      → SybilCluster W × LocalReply (ℕ × ClusterStats)
  sybil_ingest s r ip intervals now = if_local r s (elim (given ip) [
    | none ↦ (s, missing_field)
    | some address ↦ elim intervals [
      | none ↦ (s, missing_field)
      | some gaps ↦ ingest_given s address gaps now
    ]
  ])

  abbrev pub flag_given : SybilCluster W → Text → SybilCluster W × LocalReply ℕ
  flag_given s ip = let (s', count) = flag s (hash_ip k day ip) in (s', answered count)

  -- `/api/sybil/flag`
  unfoldable pub sybil_flag : SybilCluster W → Request → Option Text → SybilCluster W × LocalReply ℕ
  sybil_flag s r ip =
      if_local r s
        (elim (given ip) [ none ↦ (s, missing_field) | some address ↦ flag_given s address ])
