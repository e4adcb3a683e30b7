-- ===== src/Sniper/Score.antt =====
-- The scoring of gateway/src/sniper.ts: statistics of the intervals, and the score of a request.
-- An `elim` on a test reads the branches of the source in their order.
pub mod Bounds
use x402_health_oracle.Prelude.{
  ℕ, zero, suc, ◌+◌, ◌/◌, Bool, true, false, ◌||◌, not, Option, none, some, List, [], ◌∷◌, map, ltb,
  leb, if◌then◌else◌, Text, codes, includes, to_lower, length, replicate,
}
use x402_health_oracle.Double.{
  Double, ◌⊕◌, ◌⊖◌, ◌⊗◌, ◌⊘◌, ◌⊑◌, ◌⊏◌, ◌≐◌, num, neg, abs, min, max, square, sum, sum_from,
}

pub record RequestHeaders : Type 0 where
  pub user_agent : Option Text
  pub accept_language : Option Text
  pub sec_fetch_mode : Option Text
  pub sec_fetch_site : Option Text

pub record ScoreBreakdown : Type 0 where
  pub variance_score : ℕ
  pub entropy_score : ℕ
  pub autocorr_score : ℕ
  pub ua_score : ℕ
  pub accept_lang_score : ℕ
  pub sec_fetch_mode_score : ℕ
  pub sec_fetch_site_score : ℕ

pub record SniperScore {ℓ} (W : Type ℓ) : Type ℓ where
  pub total : ℕ
  pub breakdown : ScoreBreakdown
  pub variance : W
  pub entropy : W
  pub autocorr : W
  pub blocked : Bool

abbrev pub block_threshold : ℕ
block_threshold = 60

-- `x ? 0 : penalty` of a text that may be missing: the empty text counts as missing.
abbrev pub missing : Option Text → Bool
missing none = true
missing (some []) = true
missing (some (_ ∷ _)) = false

abbrev pub text_or_empty : Option Text → Text
text_or_empty none = []
text_or_empty (some s) = s

-- `bins[i]++`; a number that is no index of the array changes no element.
abbrev pub bump_at : Option ℕ → List ℕ → List ℕ
bump_at none bins = bins
bump_at (some i) [] = []
bump_at (some zero) (b ∷ bins) = suc b ∷ bins
bump_at (some (suc i)) (b ∷ bins) = b ∷ bump_at (some i) bins

-- `bins.reduce((a, b) => a + b, 0)`
abbrev pub count_all : List ℕ → ℕ
count_all [] = 0
count_all (b ∷ bins) = b + count_all bins

abbrev pub half_length {ℓ} : {A : Type ℓ} → List A → ℕ
half_length xs = length xs / 2

-- `Math.max(4, Math.floor(xs.length / 2))`
abbrev pub bin_count {ℓ} : {A : Type ℓ} → List A → ℕ
bin_count xs = if ltb 4 (half_length xs) then half_length xs else 4

module _ {ℓ} {W : Type ℓ} ⦃d : Double W⦄ where
  abbrev pub mean_of : List W → W
  mean_of xs = sum xs ⊘ num (length xs)

  unfoldable pub compute_variance : List W → W
  compute_variance values =
      if ltb (length values) 2
      then num 0
      else sum (map (λ b. square (b ⊖ mean_of values)) values) ⊘ num (length values)

  -- `Math.max(...xs, last)`
  abbrev pub max_with : List W → W → W
  max_with [] last = last
  max_with (x ∷ xs) last = max x (max_with xs last)

  -- `deviations.forEach(d => bins[Math.min(n - 1, Math.floor((d / maxDev) * n))]++)`
  unfoldable pub fill_bins : ℕ → W → List W → List ℕ → List ℕ
  fill_bins n max_dev [] bins = bins
  fill_bins n max_dev (x ∷ xs) bins =
      fill_bins n max_dev xs
        (bump_at (d.index (min (num n ⊖ num 1) (d.floor (x ⊘ max_dev ⊗ num n)))) bins)

  -- One round of the sum over the bins.
  unfoldable pub entropy_sum : ℕ → W → List ℕ → W
  entropy_sum total acc [] = acc
  entropy_sum total acc (b ∷ bins) =
      let p = num b ⊘ num total in
      entropy_sum total (if num 0 ⊏ p then acc ⊕ p ⊗ d.log2 p else acc) bins

  unfoldable pub interval_entropy : List W → Option ℕ → W
  unfolding fill_bins entropy_sum
  interval_entropy intervals given =
      let n : ℕ = elim given [ none ↦ bin_count intervals | some k ↦ k ] in
      let deviations = map (λ x. abs (x ⊖ mean_of intervals)) intervals in
      let max_dev = max_with deviations (d.ratio 1 1000) in
      let bins = fill_bins n max_dev deviations (replicate n 0) in
      if ltb (length intervals) 2 then num 0 else neg (entropy_sum (count_all bins) (num 0) bins)

  -- `corr += (intervals[i] - mean) * (intervals[i - 1] - mean)`, from the second on.
  unfoldable pub lag_sum : W → W → W → List W → W
  lag_sum mean acc before [] = acc
  lag_sum mean acc before (x ∷ xs) = lag_sum mean (acc ⊕ (x ⊖ mean) ⊗ (before ⊖ mean)) x xs

  abbrev pub lag_sum_of : W → List W → W
  lag_sum_of mean [] = num 0
  lag_sum_of mean (x ∷ xs) = lag_sum mean (num 0) x xs

  unfoldable pub compute_autocorrelation : List W → W
  unfolding compute_variance lag_sum
  compute_autocorrelation intervals =
      let variance = compute_variance intervals in
      if ltb (length intervals) 3
      then num 0
      else if variance ≐ num 0
      then num 1
      else lag_sum_of (mean_of intervals) intervals ⊘ ((num (length intervals) ⊖ num 1) ⊗ variance)

  unfoldable pub score_variance : W → W → ℕ
  score_variance variance threshold =
      if variance ⊏ threshold then 40 else if variance ⊏ threshold ⊗ num 4 then 20 else 0

  unfoldable pub score_entropy : W → ℕ
  score_entropy entropy = if entropy ⊏ d.ratio 5 10 then 30 else if entropy ⊏ num 2 then 12 else 0

  unfoldable pub score_autocorr : W → ℕ
  score_autocorr autocorr =
      if d.ratio 7 10 ⊏ autocorr then 25 else if d.ratio 4 10 ⊏ autocorr then 12 else 0

abbrev pub score_sum : ScoreBreakdown → ℕ
score_sum b =
    b.variance_score + b.entropy_score + b.autocorr_score + b.ua_score + b.accept_lang_score
    + b.sec_fetch_mode_score + b.sec_fetch_site_score

-- `!ua || !/mozilla/i.test(ua)`
unfoldable pub is_bot_ua : Option Text → Bool
is_bot_ua ua = missing ua || not (includes (to_lower (text_or_empty ua)) (codes "mozilla"))

module _ {ℓ} {W : Type ℓ} ⦃d : Double W⦄ where
  -- The seven parts of the score, from the three statistics and the headers.
  unfoldable pub breakdown_of : W → W → W → RequestHeaders → W → ScoreBreakdown
  unfolding score_variance score_entropy score_autocorr
  breakdown_of variance entropy autocorr headers threshold = record {
    variance_score = score_variance variance threshold;
    entropy_score = score_entropy entropy;
    autocorr_score = score_autocorr autocorr;
    ua_score = if is_bot_ua headers.user_agent then 20 else 0;
    accept_lang_score = if missing headers.accept_language then 10 else 0;
    sec_fetch_mode_score = if missing headers.sec_fetch_mode then 15 else 0;
    sec_fetch_site_score = if missing headers.sec_fetch_site then 10 else 0;
  }

  unfoldable pub score_bot_request : List W → RequestHeaders → W → SniperScore W
  unfolding breakdown_of
  score_bot_request intervals headers threshold =
      let variance = compute_variance intervals in
      let entropy = interval_entropy intervals none in
      let autocorr = compute_autocorrelation intervals in
      let parts = breakdown_of variance entropy autocorr headers threshold in
      record {
        total = score_sum parts;
        breakdown = parts;
        variance = variance;
        entropy = entropy;
        autocorr = autocorr;
        blocked = leb block_threshold (score_sum parts);
      }
