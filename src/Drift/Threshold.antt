-- ===== src/Drift/Threshold.antt =====
-- `DriftAdaptiveThreshold` of gateway/src/services/driftModel.ts. The constructor throws on a floor
-- above the ceiling and on a quantile outside (0, 1): `none`.
use x402_health_oracle.Prelude.{
  ℕ, ◌+◌, Bool, true, false, ◌&&◌, not, Option, none, some, [], ltb, leb, if◌then◌else◌,
}
use x402_health_oracle.Double.{Double, ◌⊗◌, ◌⊏◌, num, min, max}
use x402_health_oracle.Drift.Quantile.{Estimator, filling, count, value}
use x402_health_oracle.Drift.Quantile as Quantile
use x402_health_oracle.Drift.PageHinkley.{
  PageHinkley, PageHinkleyOptions, new_page_hinkley, reset, or_default,
}
use x402_health_oracle.Drift.PageHinkley as Hinkley

pub data DriftStatus : Type 0 where
  warmup stable drift : DriftStatus

pub record DriftThresholdOptions {ℓ} (W : Type ℓ) : Type ℓ where
  pub quantile : W
  pub floor : W
  pub ceil : W
  pub margin : Option W
  pub warmup_samples : Option ℕ
  pub ph : PageHinkleyOptions W

pub record DriftThreshold {ℓ} (W : Type ℓ) : Type ℓ where
  pub quantile : W
  pub floor : W
  pub ceil : W
  pub margin : W
  pub warmup_samples : ℕ
  pub estimator : Estimator W
  pub ph : PageHinkley W
  pub status : DriftStatus
  pub drift_events : ℕ

abbrev pub is_drift : DriftStatus → Bool
is_drift warmup = false
is_drift stable = false
is_drift drift = true

module _ {ℓ} {W : Type ℓ} ⦃d : Double W⦄ where
  unfoldable pub new_threshold : DriftThresholdOptions W → Option (DriftThreshold W)
  unfolding new_page_hinkley
  new_threshold opts =
      if opts.ceil ⊏ opts.floor
      then none
      else if not ((num 0 ⊏ opts.quantile) && (opts.quantile ⊏ num 1))
      then none
      else some (record {
        quantile = opts.quantile;
        floor = opts.floor;
        ceil = opts.ceil;
        margin = or_default opts.margin (num 1);
        warmup_samples = or_default opts.warmup_samples 50;
        estimator = filling [];
        ph = new_page_hinkley opts.ph;
        status = warmup;
        drift_events = 0;
      })

  -- The status after a sample, from the alarm on.
  unfoldable pub judge : DriftThreshold W → DriftThreshold W
  judge t =
      if ltb (count t.estimator) t.warmup_samples
      then record t { status = warmup }
      else if t.ph.drifting
      then record t {
        drift_events = if is_drift t.status then t.drift_events else t.drift_events + 1;
        status = drift;
        ph = reset t.ph;
      }
      else record t { status = stable }

  abbrev pub with_sample : DriftThreshold W → W → DriftThreshold W
  with_sample t x = record t {
    estimator = Quantile.observe t.quantile t.estimator x;
    ph = (Hinkley.observe t.ph x).0;
  }

  unfoldable pub observe : DriftThreshold W → W → DriftThreshold W
  unfolding judge
  observe t x = if d.is_finite x then judge (with_sample t x) else t

  unfoldable pub threshold : DriftThreshold W → W
  threshold t =
      if ltb (count t.estimator) t.warmup_samples
      then t.floor
      else min t.ceil (max t.floor (value t.quantile t.estimator ⊗ t.margin))

  unfoldable pub is_ready : DriftThreshold W → Bool
  is_ready t = leb t.warmup_samples (count t.estimator)
