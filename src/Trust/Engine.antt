-- ===== src/Trust/Engine.antt =====
-- gateway/src/services/trustEngine.ts. Scores and weights are doubles; a reason is a text.
pub mod Bands
pub mod HardFail
use x402_health_oracle.Prelude.{
  ℕ, Bool, true, false, not, ◌&&◌, Option, none, some, List, [], ◌∷◌, ◌++◌, map, keep, find_first,
  if◌then◌else◌, Text, codes,
}
use x402_health_oracle.Double.{Double, ◌⊕◌, ◌⊗◌, ◌⊘◌, ◌⊑◌, ◌≐◌, num, min, max, sum, is_nan}

pub record TrustSignal {ℓ} (W : Type ℓ) : Type ℓ where
  pub id : Text
  pub hard_fail : Bool
  pub score : W
  pub weight : W
  pub reasons : List Text

pub data TrustDecision : Type 0 where
  allow shadow_limit step_up deny : TrustDecision

pub record TrustAssessment {ℓ} (W : Type ℓ) : Type ℓ where
  pub decision : TrustDecision
  pub fused_score : W
  pub hard_failed : Bool
  pub signals : List (TrustSignal W)
  pub reasons : List Text
  pub ts : ℕ

module _ {ℓ} {W : Type ℓ} ⦃d : Double W⦄ where
  abbrev pub band_allow : W
  band_allow = d.ratio 7 10

  abbrev pub band_step_up : W
  band_step_up = d.ratio 4 10

  abbrev pub band_shadow_limit : W
  band_shadow_limit = d.ratio 2 10

  -- `Math.min(...xs)` of a list that is not empty
  abbrev pub minimum : W → List W → W
  minimum x [] = x
  minimum x (y ∷ ys) = min x (minimum y ys)

  -- `x || 1`: zero and NaN are replaced.
  abbrev pub or_one : W → W
  or_one x = if x ≐ num 0 then num 1 else if is_nan x then num 1 else x

  abbrev pub clamp_unit : W → W
  clamp_unit x = max (num 0) (min (num 1) x)

  -- The weighted mean of the soft signals, moderated by the weakest of them.
  unfoldable pub moderated : TrustSignal W → List (TrustSignal W) → W
  moderated s soft =
      let total_weight = or_one (sum (map (λ t. t.weight) (s ∷ soft))) in
      let weighted_avg = sum (map (λ t. t.score ⊗ t.weight) (s ∷ soft)) ⊘ total_weight in
      let weakest = minimum s.score (map (λ t. t.score) soft) in
      let moderation = d.ratio 5 10 ⊕ d.ratio 5 10 ⊗ weakest in weighted_avg ⊗ moderation

  unfoldable pub fuse_soft : List (TrustSignal W) → W
  fuse_soft [] = num 1
  fuse_soft (s ∷ soft) = clamp_unit (moderated s soft)

  unfoldable pub fuse_soft_signals : List (TrustSignal W) → W
  fuse_soft_signals signals = fuse_soft (keep (λ s. not s.hard_fail) signals)

  unfoldable pub band_for : W → TrustDecision
  band_for score =
      if band_allow ⊑ score
      then allow
      else if band_step_up ⊑ score
      then step_up
      else if band_shadow_limit ⊑ score
      then shadow_limit
      else deny

  abbrev pub has_failed_hard : TrustSignal W → Bool
  has_failed_hard s = s.hard_fail && (s.score ⊑ num 0)

  -- `signals.flatMap(s => s.reasons.map(r => `${s.id}:${r}`))`
  abbrev pub all_reasons : List (TrustSignal W) → List Text
  all_reasons [] = []
  all_reasons (s ∷ signals) = map (λ r. s.id ++ b':' ∷ r) s.reasons ++ all_reasons signals

  unfoldable pub evaluate_trust : List (TrustSignal W) → ℕ → TrustAssessment W
  evaluate_trust signals now = elim (find_first has_failed_hard signals) [
    | some failed ↦ record {
      decision = deny;
      fused_score = num 0;
      hard_failed = true;
      signals = signals;
      reasons = (codes "hard_fail:" ++ failed.id) ∷ failed.reasons;
      ts = now;
    }
    | none ↦
        let fused = fuse_soft_signals signals in
        record {
          decision = band_for fused;
          fused_score = fused;
          hard_failed = false;
          signals = signals;
          reasons = all_reasons signals;
          ts = now;
        }
  ]
