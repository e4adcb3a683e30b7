-- ===== src/Drift/Tests.antt =====
-- The drift model on a concrete stream.
use x402_health_oracle.Prelude.{◌≡◌, refl, false, none, some, List, [], ◌∷◌, length, keep}
use x402_health_oracle.Prelude.Int.{pos}
use x402_health_oracle.Double.{◌⊗◌}
use x402_health_oracle.Double.Laws.{◌≼◌, IsNumber}
use x402_health_oracle.Double.Fixed.{Fixed, fixed_Double, Fixed-IsOrdered}
use x402_health_oracle.Stats.{sort, insert}
use x402_health_oracle.Drift.Quantile.{Estimator, filling, count, value, take_in}
use x402_health_oracle.Drift.Quantile as Quantile
use x402_health_oracle.Drift.PageHinkley.{new_page_hinkley, reset}
use x402_health_oracle.Drift.PageHinkley as Hinkley
use x402_health_oracle.Drift.Positions.{IsValid, observe_all, observe_all-IsValid}
use x402_health_oracle.Drift.Threshold.{
  DriftThresholdOptions, DriftThreshold, warmup, new_threshold, judge, observe, threshold, is_ready,
}
use x402_health_oracle.Drift.Status.{feed, threshold_bounds}

abbrev half : Fixed
half = some (pos 500)

abbrev samples : List Fixed
samples = some (pos 1000) ∷ some (pos 3000) ∷ none ∷ some (pos 2000) ∷ []

observe_all-IsValid_example :
    IsValid (observe_all half samples (filling []))
    × (count (observe_all half samples (filling [])) ≡ length (keep fixed_Double.is_finite samples))
observe_all-IsValid_example = observe_all-IsValid half samples

abbrev options : DriftThresholdOptions Fixed
options = record {
  quantile = half;
  floor = some (pos 1000);
  ceil = some (pos 5000);
  margin = none;
  warmup_samples = some 1;
  ph = record { delta = none; lambda = none };
}

abbrev a_threshold : DriftThreshold Fixed
a_threshold = record {
  quantile = half;
  floor = some (pos 1000);
  ceil = some (pos 5000);
  margin = some (pos 1000);
  warmup_samples = 1;
  estimator = filling [];
  ph = new_page_hinkley (record { delta = none; lambda = none });
  status = warmup;
  drift_events = 0;
}

options-a_threshold : new_threshold options ≡ some a_threshold
unfolding new_threshold fixed_Double
options-a_threshold = refl

floor-IsNumber : IsNumber options.floor
unfolding fixed_Double
floor-IsNumber = refl

ceil-IsNumber : IsNumber options.ceil
unfolding fixed_Double
ceil-IsNumber = refl

abbrev one_sample : List Fixed
one_sample = some (pos 2000) ∷ []

value-IsNumber : IsNumber (
    value (feed one_sample a_threshold).quantile (feed one_sample a_threshold).estimator
    ⊗ (feed one_sample a_threshold).margin)
unfolding fixed_Double feed observe judge Quantile.observe take_in value Hinkley.observe sort insert
    new_page_hinkley
value-IsNumber = refl

threshold_bounds_example :
    (options.floor ≼ threshold (feed one_sample a_threshold))
    × (threshold (feed one_sample a_threshold) ≼ options.ceil)
    × (is_ready (feed one_sample a_threshold) ≡ false
        → threshold (feed one_sample a_threshold) ≡ options.floor)
threshold_bounds_example =
    threshold_bounds Fixed-IsOrdered options a_threshold one_sample floor-IsNumber ceil-IsNumber
      options-a_threshold value-IsNumber
