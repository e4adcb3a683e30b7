-- ===== src/Sniper/Score/Bounds.antt =====
-- What the score of a request can be, and what a block needs.
use x402_health_oracle.Prelude.{ℕ, ◌+◌, ◌≤◌, ◌<◌, ◌≡◌, ◌↔◌, ◌⊎◌, true, false, List, none, arith}
use x402_health_oracle.Double.{Double, num, ◌⊗◌}
use x402_health_oracle.Double.Laws.{◌≼◌, IsOrdered, lt_of_le-lt}
use x402_health_oracle.Sniper.Score.{
  RequestHeaders, score_variance, score_entropy, score_autocorr, compute_variance, interval_entropy,
  compute_autocorrelation, is_bot_ua, missing, breakdown_of, score_bot_request, score_sum,
}

abbrev pub HasBrowserHeaders : RequestHeaders → Type 0
HasBrowserHeaders h =
    (is_bot_ua h.user_agent ≡ false)
    × (missing h.accept_language ≡ false)
    × (missing h.sec_fetch_mode ≡ false)
    × (missing h.sec_fetch_site ≡ false)

-- Two of three scores are above zero.
abbrev pub TwoOf : ℕ → ℕ → ℕ → Type 0
TwoOf a b c = ((0 < a) × (0 < b)) ⊎ (((0 < a) × (0 < c)) ⊎ ((0 < b) × (0 < c)))

module _ {ℓ} {W : Type ℓ} ⦃d : Double W⦄ where
  timing_scores :
      (v e a t : W) → (score_variance v t ≤ 40) × (score_entropy e ≤ 30) × (score_autocorr a ≤ 25)
  unfolding score_variance score_entropy score_autocorr
  timing_scores v e a t = ground arith

  breakdown_bounds :
      (v e a t : W) (h : RequestHeaders)
      → let b = breakdown_of v e a h t in
        (score_sum b ≤ 150)
        × (score_sum b ≤ b.variance_score + b.entropy_score + b.autocorr_score + 55)
        × (HasBrowserHeaders h
            → score_sum b ≡ b.variance_score + b.entropy_score + b.autocorr_score)
  unfolding breakdown_of
  breakdown_bounds v e a t h = let s = timing_scores v e a t in ground arith

  -- A request is blocked exactly at a total of 60, which is never above 150. Its headers alone
  -- never block it: some timing score is above zero. With the four headers of a browser a block
  -- takes two timing scores above zero.
  pub blocked_iff :
      (intervals : List W) (h : RequestHeaders) (threshold : W)
      → let s = score_bot_request intervals h threshold in
        let b = s.breakdown in
        ((s.blocked ≡ true) ↔ (60 ≤ s.total))
        × (s.total ≤ 150)
        × (s.blocked ≡ true → 5 ≤ b.variance_score + b.entropy_score + b.autocorr_score)
        × (HasBrowserHeaders h
            → s.blocked ≡ true
            → TwoOf b.variance_score b.entropy_score b.autocorr_score)
  unfolding score_bot_request
  blocked_iff intervals h threshold =
      let v = compute_variance intervals in
      let e = interval_entropy intervals none in
      let a = compute_autocorrelation intervals in
      let s = timing_scores v e a threshold in
      let b = breakdown_bounds v e a threshold h in
      (ground arith, b.0, ground arith, λ browser over. ground (arith, b.2 browser))

  module _ (laws : IsOrdered W) where
    -- A steadier rhythm never scores less: the variance score falls as the variance grows.
    pub score_variance_anti :
        (v w threshold : W) → v ≼ w → score_variance w threshold ≤ score_variance v threshold
    unfolding score_variance
    score_variance_anti v w threshold h =
        ground (arith, lt_of_le-lt laws v w threshold h, lt_of_le-lt laws v w (threshold ⊗ num 4) h)
