-- ===== src/Gateway/Admin/Rules.antt =====
-- The rules after calibrations.
use x402_health_oracle.Prelude.{
  ◌≡◌, Bool, true, List, [], ◌∷◌, Option, none, some, Bool-cases, inl, inr, arith,
}
use x402_health_oracle.Double.{Double}
use x402_health_oracle.Gateway.Request.{Request, is_local}
use x402_health_oracle.Gateway.Admin.{
  LiveRules, Calibration, taken, is_positive, is_fraction, calibrate,
}

-- A variance above 0, and a correlation between 0 and 1.
pub record IsSane {W : Type 0} ⦃d : Double W⦄ (rules : LiveRules W) : Type 0 where
  pub positive : is_positive rules.sigma2 ≡ true
  pub fraction : is_fraction rules.rho ≡ true

module _ {W : Type 0} ⦃d : Double W⦄ where
  taken_passes :
      (test : W → Bool) (o : Option W) (old : W) → test old ≡ true → test (taken test o old) ≡ true
  taken_passes test none old h = h
  taken_passes test (some x) old h = ground arith

  -- The rules after a series of calls.
  abbrev pub calibrate_all : LiveRules W → List (Request × Calibration W) → LiveRules W
  calibrate_all rules [] = rules
  calibrate_all rules ((r, body) ∷ calls) = calibrate_all (calibrate rules r body).0 calls

  calibrate-IsSane :
      (rules : LiveRules W) (r : Request) (body : Calibration W)
      → IsSane rules
      → IsSane (calibrate rules r body).0
  unfolding calibrate
  calibrate-IsSane rules r body sane = elim (Bool-cases (is_local r)) [
    | inl local ↦ rw local (record {
      positive = taken_passes is_positive body.sigma2 rules.sigma2 sane.positive;
      fraction = taken_passes is_fraction body.rho rules.rho sane.fraction;
    })
    | inr alien ↦ rw alien sane
  ]

  -- Whatever calibrations are asked for, by whomever, the variance of the rules stays above 0 and
  -- their correlation between 0 and 1.
  pub calibrate_all-IsSane :
      (rules : LiveRules W) (calls : List (Request × Calibration W))
      → IsSane rules
      → IsSane (calibrate_all rules calls)
  calibrate_all-IsSane rules [] sane = sane
  calibrate_all-IsSane rules ((r, body) ∷ calls) sane =
      calibrate_all-IsSane (calibrate rules r body).0 calls (calibrate-IsSane rules r body sane)
