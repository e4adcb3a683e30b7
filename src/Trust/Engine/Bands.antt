-- ===== src/Trust/Engine/Bands.antt =====
-- The decision bands, and the fused score.
use x402_health_oracle.Prelude.{ℕ, ◌≤◌, ◌≡◌, refl, List, [], ◌∷◌, arith, not, keep}
use x402_health_oracle.Double.{Double, num}
use x402_health_oracle.Double.Laws.{◌≼◌, IsNumber, IsOrdered}
use x402_health_oracle.Trust.Engine.{
  TrustSignal, TrustDecision, allow, shadow_limit, step_up, deny, band_for, clamp_unit, fuse_soft,
  moderated, fuse_soft_signals, band_allow, band_step_up, band_shadow_limit,
}

-- How much a decision restricts. A step-up is milder than a shadow limit.
abbrev pub strictness : TrustDecision → ℕ
strictness allow = 0
strictness step_up = 1
strictness shadow_limit = 2
strictness deny = 3

module _ {ℓ} {W : Type ℓ} ⦃d : Double W⦄ (laws : IsOrdered W) where
  open laws use {le_trans, le_total, number_of_le, ratio_mono}

  -- A higher score never gets a stricter decision.
  pub band_for_anti : (x y : W) → x ≼ y → strictness (band_for y) ≤ strictness (band_for x)
  unfolding band_for
  band_for_anti x y h =
      ground
        (arith, le_trans band_allow x y, le_trans band_step_up x y, le_trans band_shadow_limit x y)

  clamp_unit_bounds : (x : W) → IsNumber x → (num 0 ≼ clamp_unit x) × (clamp_unit x ≼ num 1)
  clamp_unit_bounds x n =
      let zero_one = ratio_mono 0 1 1 (omega arith) (omega arith) in
      let (n0, n1) = number_of_le (num 0) (num 1) zero_one in
      ground
        (arith, le_total (num 0) x n0 n, le_total (num 1) x n1 n, le_total (num 0) (num 1) n0 n1)

  -- The fused score lies between 0 and 1, where the moderated mean of the soft signals is a number;
  -- with no soft signal it is 1.
  pub fuse_soft_signals_bounds :
      (signals : List (TrustSignal W))
      → ((s : TrustSignal W) (soft : List (TrustSignal W))
          → keep (λ t. not t.hard_fail) signals ≡ s ∷ soft
          → IsNumber (moderated s soft))
      → (num 0 ≼ fuse_soft_signals signals) × (fuse_soft_signals signals ≼ num 1)
  unfolding fuse_soft_signals fuse_soft
  fuse_soft_signals_bounds signals h = bounds (keep (λ t. not t.hard_fail) signals) h
    where
      bounds :
          (l : List (TrustSignal W))
          → ((s : TrustSignal W) (soft : List (TrustSignal W))
              → l ≡ s ∷ soft
              → IsNumber (moderated s soft))
          → (num 0 ≼ fuse_soft l) × (fuse_soft l ≼ num 1)
      bounds [] k =
          let zero_one = ratio_mono 0 1 1 (omega arith) (omega arith) in
          (zero_one, (number_of_le (num 0) (num 1) zero_one).1)
      bounds (s ∷ soft) k = clamp_unit_bounds (moderated s soft) (k s soft refl)
