-- ===== src/Classifier/Winner.antt =====
-- Which class the classifier picks.
use x402_health_oracle.Prelude.{ℕ, ◌+◌, ◌*◌, ◌≤◌, ◌<◌, ◌≡◌, Bool, arith, Text}
use x402_health_oracle.Double.{Double}
use x402_health_oracle.Classifier.{
  AgentClass, human, legit_agent, malicious_bot, ClassificationInput, Scores, score_rho,
  score_variance, score_entropy, score_ua, score_frankenstein, score_pow, pick_class, no_scores,
  scores_of, classify_agent,
}

abbrev pub Wins : AgentClass → Scores → Type 0
Wins malicious_bot s = (s.h < s.b) × (s.a < s.b)
Wins legit_agent s = (s.h < s.a) × (s.b ≤ s.a)
Wins human s = (s.a ≤ s.h) × (s.b ≤ s.h)

pick_class-Wins : (s : Scores) → Wins (pick_class s).agent_class s
unfolding pick_class
pick_class-Wins s = ground arith

abbrev pub points : Scores → ℕ
points s = s.h + s.a + s.b

module _ {ℓ} {W : Type ℓ} ⦃d : Double W⦄ where
  points-score_rho : (x : W) (s : Scores) → points s + 15 ≤ points (score_rho x s)
  unfolding score_rho
  points-score_rho x s = ground arith

  points-score_variance : (x : W) (s : Scores) → points s + 15 ≤ points (score_variance x s)
  unfolding score_variance
  points-score_variance x s = ground arith

  points-score_entropy : (x : W) (s : Scores) → points s + 10 ≤ points (score_entropy x s)
  unfolding score_entropy
  points-score_entropy x s = ground arith

points-score_ua : (ua : Text) (s : Scores) → points s ≤ points (score_ua ua s)
unfolding score_ua
points-score_ua ua s = ground arith

points-score_frankenstein : (n : ℕ) (s : Scores) → points s ≤ points (score_frankenstein n s)
unfolding score_frankenstein
points-score_frankenstein n s = ground arith

points-score_pow : (p : Bool) (s : Scores) → points s ≤ points (score_pow p s)
unfolding score_pow
points-score_pow p s = ground arith

pick_class_ratio :
    (s : Scores)
    → 0 < points s
    → let r = pick_class s in (r.total ≡ points s) × (r.winner ≤ r.total) × (r.total ≤ 3 * r.winner)
unfolding pick_class
pick_class_ratio s h = ground arith

module _ {ℓ} {W : Type ℓ} ⦃d : Double W⦄ where
  points-scores_of : (input : ClassificationInput W) → 40 ≤ points (scores_of input)
  unfolding scores_of
  points-scores_of input =
      let s1 = score_rho input.spearman_rho no_scores in
      let s2 = score_variance input.variance s1 in
      let s3 = score_entropy input.entropy s2 in
      let s4 = score_ua input.ua s3 in
      let s5 = score_frankenstein input.frankenstein_score s4 in
      omega (
        arith,
        points-score_rho input.spearman_rho no_scores,
        points-score_variance input.variance s1,
        points-score_entropy input.entropy s2,
        points-score_ua input.ua s3,
        points-score_frankenstein input.frankenstein_score s4,
        points-score_pow input.has_pow s5,
      )

  -- The class has the highest of the three scores: a bot must beat both others, an agent must beat
  -- the human score, and the human class takes what is left. The total is the sum of the scores,
  -- at least 40, so the fallback to 1 is never taken; the confidence, the winner's score over the
  -- total, lies between 1/3 and 1.
  pub classify_agent-Wins :
      (input : ClassificationInput W)
      → let s = scores_of input in
        let r = classify_agent input in
        Wins r.agent_class s
        × (r.total ≡ s.h + s.a + s.b)
        × (40 ≤ r.total)
        × (r.winner ≤ r.total)
        × (r.total ≤ 3 * r.winner)
  unfolding classify_agent
  classify_agent-Wins input =
      let s = scores_of input in
      let least = points-scores_of input in
      let (total, upper, lower) = pick_class_ratio s (omega arith) in
      (pick_class-Wins s, total, omega arith, upper, lower)
