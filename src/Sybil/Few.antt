-- ===== src/Sybil/Few.antt =====
-- The distance of profiles with few samples.
use x402_health_oracle.Prelude.{true, leb, ◌≤◌, ◌<◌, ◌≡◌, ◌∙◌, sym, refl, replicate, arith}
use x402_health_oracle.Double.{Double, num}
use x402_health_oracle.Welford.{WelfordProfile, to_distribution, kl_divergence}
use x402_health_oracle.Sybil.{kl_distance, or_default}

-- Stable for the clusters, but with no distribution yet.
abbrev pub HasFew {ℓ} : {W : Type ℓ} → WelfordProfile W → Type 0
HasFew p = (5 ≤ p.count) × (p.count < 10)

module _ {ℓ} {W : Type ℓ} ⦃d : Double W⦄ where
  few_distribution : (p : WelfordProfile W) → HasFew p → to_distribution p 20 ≡ replicate 20 (num 0)
  unfolding to_distribution
  few_distribution p h = ground arith

  few_distance :
      (a b : WelfordProfile W)
      → HasFew a
      → HasFew b
      → kl_distance a b
        ≡ or_default (kl_divergence (replicate 20 (num 0)) (replicate 20 (num 0))) (num 1)
  unfolding kl_distance
  few_distance a b h k =
      let stable_a : leb 5 a.count ≡ true = ground arith in
      let stable_b : leb 5 b.count ≡ true = ground arith in
      rw (stable_a, stable_b, few_distribution a h, few_distribution b k, kl_distance) refl

  -- Two profiles of five to nine samples each have one and the same distance, whatever their
  -- samples are.
  pub kl_distance_few :
      (a b a' b' : WelfordProfile W)
      → HasFew a
      → HasFew b
      → HasFew a'
      → HasFew b'
      → kl_distance a b ≡ kl_distance a' b'
  kl_distance_few a b a' b' h k h' k' = few_distance a b h k ∙ sym (few_distance a' b' h' k')
