-- ===== src/Jitter/Verdict.antt =====
-- `jitterStats`, `jitterVerdict` and `jitterSyntheticScore` of
-- gateway/src/services/jitterProbe.ts.
use x402_health_oracle.Prelude.{
  ℕ, ◌≡◌, ◌↔◌, ◌<◌, ◌&&◌, not, List, [], ◌∷◌, map, length, ltb, if◌then◌else◌, arith,
}
use x402_health_oracle.Double.{Double, ◌⊖◌, ◌⊘◌, ◌⊏◌, ◌≐◌, num, abs, sum, square}
use x402_health_oracle.Stats.{minimum, maximum, mean_of, shannon_entropy, calculate_autocorrelation}

pub record JitterStats {ℓ} (W : Type ℓ) : Type ℓ where
  pub n : ℕ
  pub mean : W
  pub variance : W
  pub stddev : W
  pub cv : W
  pub entropy : W
  pub autocorr : W
  pub min : W
  pub max : W
  pub range : W

pub data JitterVerdict : Type 0 where
  organic flat chaotic insufficient : JitterVerdict

module _ {ℓ} {W : Type ℓ} ⦃d : Double W⦄ where
  unfoldable pub jitter_stats : List W → JitterStats W
  jitter_stats [] = record {
    n = 0;
    mean = num 0;
    variance = num 0;
    stddev = num 0;
    cv = num 0;
    entropy = num 0;
    autocorr = num 0;
    min = num 0;
    max = num 0;
    range = num 0;
  }
  jitter_stats (x ∷ xs) =
      let deltas = x ∷ xs in
      let mean = mean_of deltas in
      let variance = sum (map (λ b. square (b ⊖ mean)) deltas) ⊘ num (length deltas) in
      let stddev = d.sqrt variance in
      record {
        n = length deltas;
        mean = mean;
        variance = variance;
        stddev = stddev;
        cv = if not (mean ≐ num 0) then stddev ⊘ abs mean else num 0;
        entropy = shannon_entropy deltas;
        autocorr = calculate_autocorrelation deltas;
        min = minimum x xs;
        max = maximum x xs;
        range = maximum x xs ⊖ minimum x xs;
      }

  unfoldable pub jitter_verdict : JitterStats W → JitterVerdict
  jitter_verdict stats =
      if ltb stats.n 10
      then insufficient
      else if (stats.cv ⊏ d.ratio 3 100) && (stats.entropy ⊏ d.ratio 12 10)
      then flat
      else if (d.ratio 8 10 ⊏ stats.cv) && (abs stats.autocorr ⊏ d.ratio 12 100)
      then chaotic
      else organic

  unfoldable pub jitter_synthetic_score : JitterStats W → W
  jitter_synthetic_score stats = elim (jitter_verdict stats) [
    | insufficient ↦ d.ratio 5 10
    | flat ↦ d.ratio 85 100
    | chaotic ↦ d.ratio 7 10
    | organic ↦ d.ratio 15 100
  ]

  -- Below ten samples the verdict is "insufficient", whatever they are, and from ten on it never
  -- is.
  pub jitter_verdict_insufficient :
      (deltas : List W)
      → (jitter_verdict (jitter_stats deltas) ≡ insufficient) ↔ (length deltas < 10)
  unfolding jitter_verdict jitter_stats
  jitter_verdict_insufficient [] = ground arith
  jitter_verdict_insufficient (x ∷ xs) = ground arith
