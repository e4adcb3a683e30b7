-- ===== src/Drift/Status.antt =====
-- The threshold stays within its clamps, and the status follows the samples and the alarm.
use x402_health_oracle.Prelude.{
  ◌+◌, ◌<◌, ◌≡◌, ◌↔◌, refl, ◌∙◌, sym, true, false, ◌&&◌, not, some, List, [], ◌∷◌, if◌then◌else◌,
  arith, Bool-cases, inl, inr,
}
use x402_health_oracle.Double.{Double, ◌⊗◌}
use x402_health_oracle.Double.Laws.{◌≼◌, IsNumber, IsOrdered, clamp_bounds}
use x402_health_oracle.Drift.Quantile.{count, value, take_in}
use x402_health_oracle.Drift.Quantile as Quantile
use x402_health_oracle.Drift.PageHinkley.{reset}
use x402_health_oracle.Drift.Positions.{count-take_in}
use x402_health_oracle.Drift.Threshold.{
  DriftThresholdOptions, DriftThreshold, warmup, drift, is_drift, new_threshold, judge, with_sample,
  observe, threshold, is_ready,
}

module _ {ℓ} {W : Type ℓ} ⦃d : Double W⦄ where
  -- The samples of a stream in turn.
  unfoldable pub feed : List W → DriftThreshold W → DriftThreshold W
  unfolding observe
  feed [] t = t
  feed (x ∷ xs) t = feed xs (observe t x)

  judge_clamps : (t : DriftThreshold W) → ((judge t).floor ≡ t.floor) × ((judge t).ceil ≡ t.ceil)
  unfolding judge
  judge_clamps t = ground arith

  observe_clamps :
      (t : DriftThreshold W) (x : W)
      → ((observe t x).floor ≡ t.floor) × ((observe t x).ceil ≡ t.ceil)
  unfolding observe
  observe_clamps t x = elim (Bool-cases (d.is_finite x)) [
    | inl finite ↦ rw finite (judge_clamps (with_sample t x))
    | inr not_finite ↦ rw not_finite (refl, refl)
  ]

  new_threshold_clamps :
      (laws : IsOrdered W) (opts : DriftThresholdOptions W) (t : DriftThreshold W)
      → IsNumber opts.floor
      → IsNumber opts.ceil
      → new_threshold opts ≡ some t
      → (t.floor ≡ opts.floor) × (t.ceil ≡ opts.ceil) × (opts.floor ≼ opts.ceil)
  unfolding new_threshold
  new_threshold_clamps laws opts t nf nc e =
      ground (arith, laws.lt-eq-not-le opts.ceil opts.floor nc nf)

  feed_clamps :
      (xs : List W) (t : DriftThreshold W)
      → ((feed xs t).floor ≡ t.floor) × ((feed xs t).ceil ≡ t.ceil)
  unfolding feed
  feed_clamps [] t = (refl, refl)
  feed_clamps (x ∷ xs) t =
      let (floor, ceil) = feed_clamps xs (observe t x) in
      let (floor', ceil') = observe_clamps t x in (floor ∙ floor', ceil ∙ ceil')

  threshold_clamped :
      (laws : IsOrdered W) (t : DriftThreshold W)
      → t.floor ≼ t.ceil
      → IsNumber t.floor
      → IsNumber (value t.quantile t.estimator ⊗ t.margin)
      → (t.floor ≼ threshold t)
        × (threshold t ≼ t.ceil)
        × (is_ready t ≡ false → threshold t ≡ t.floor)
  unfolding threshold is_ready
  threshold_clamped laws t le nf n =
      let raw = value t.quantile t.estimator ⊗ t.margin in
      let (low, high) = clamp_bounds laws t.floor t.ceil raw le n in ground arith

  -- Whatever the stream, a threshold that was made with a floor and a ceiling that are numbers
  -- lies between them, where the estimate with its margin is a number; until enough samples have
  -- come it is the floor.
  pub threshold_bounds :
      (laws : IsOrdered W) (opts : DriftThresholdOptions W) (t : DriftThreshold W) (xs : List W)
      → IsNumber opts.floor
      → IsNumber opts.ceil
      → new_threshold opts ≡ some t
      → IsNumber (value (feed xs t).quantile (feed xs t).estimator ⊗ (feed xs t).margin)
      → let t' = feed xs t in
        (opts.floor ≼ threshold t')
        × (threshold t' ≼ opts.ceil)
        × (is_ready t' ≡ false → threshold t' ≡ opts.floor)
  threshold_bounds laws opts t xs nf nc e n =
      let (floor, ceil) = feed_clamps xs t in
      let (floor', ceil', le) = new_threshold_clamps laws opts t nf nc e in
      let low : (feed xs t).floor ≡ opts.floor = floor ∙ floor' in
      let high : (feed xs t).ceil ≡ opts.ceil = ceil ∙ ceil' in
      rw (sym low, sym high) (threshold_clamped laws (feed xs t) (ground arith) (ground arith) n)

  judge_lem :
      (t : DriftThreshold W)
      → (count (judge t).estimator ≡ count t.estimator)
        × (((judge t).status ≡ warmup) ↔ (count t.estimator < t.warmup_samples))
        × ((judge t).drift_events
            ≡ t.drift_events
              + (if is_drift (judge t).status && not (is_drift t.status) then 1 else 0))
        × ((judge t).status ≡ drift → (judge t).ph.drifting ≡ false)
  unfolding judge reset
  judge_lem t = ground arith

  count-observe :
      (p : W) (e : Quantile.Estimator W) (x : W)
      → d.is_finite x ≡ true
      → count (Quantile.observe p e x) ≡ count e + 1
  unfolding Quantile.observe
  count-observe p e x finite = rw finite (count-take_in p e x)

  observe_finite :
      (t : DriftThreshold W) (x : W) → d.is_finite x ≡ true → observe t x ≡ judge (with_sample t x)
  unfolding observe
  observe_finite t x finite = rw finite refl

  -- A finite sample is counted; the status is "warmup" exactly while too few have come, and a
  -- drift event is counted exactly when the status becomes "drift", with the alarm armed again.
  pub observe_status :
      (t : DriftThreshold W) (x : W)
      → d.is_finite x ≡ true
      → let t' = observe t x in
        (count t'.estimator ≡ count t.estimator + 1)
        × ((t'.status ≡ warmup) ↔ (count t.estimator + 1 < t.warmup_samples))
        × (t'.drift_events
            ≡ t.drift_events + (if is_drift t'.status && not (is_drift t.status) then 1 else 0))
        × (t'.status ≡ drift → t'.ph.drifting ≡ false)
  observe_status t x finite =
      let (same, status, events, armed) = judge_lem (with_sample t x) in
      let counted = count-observe t.quantile t.estimator x finite in
      rw (observe_finite t x finite) (same ∙ counted, ground arith, events, armed)
