-- ===== src/Welford.antt =====
-- gateway/src/welford.ts. A profile is its running values; `klDivergence` throws on lists of
-- different lengths: `none`.
use x402_health_oracle.Prelude.{
  ℕ, zero, suc, ◌+◌, ◌-◌, Bool, Option, none, some, List, [], ◌∷◌, ◌==◌, ltb, leb, if◌then◌else◌,
  not, length, replicate, map,
}
use x402_health_oracle.Double.{
  Double, ◌⊕◌, ◌⊖◌, ◌⊗◌, ◌⊘◌, ◌⊏◌, ◌≐◌, num, neg, min, max, is_nan, sum,
}
use x402_health_oracle.Stats.{bump_at}

pub record WelfordProfile {ℓ} (W : Type ℓ) : Type ℓ where
  pub count : ℕ
  pub mean : W
  pub m2 : W

pub record WelfordSnapshot {ℓ} (W : Type ℓ) : Type ℓ where
  pub count : ℕ
  pub mean : W
  pub variance : W

module _ {ℓ} {W : Type ℓ} ⦃d : Double W⦄ where
  abbrev pub new_profile : WelfordProfile W
  new_profile = record { count = 0; mean = num 0; m2 = num 0 }

  unfoldable pub update : WelfordProfile W → W → WelfordProfile W
  update p value =
      let count = p.count + 1 in
      let delta = value ⊖ p.mean in
      let mean = p.mean ⊕ delta ⊘ num count in
      let delta2 = value ⊖ mean in record { count = count; mean = mean; m2 = p.m2 ⊕ delta ⊗ delta2 }

  unfoldable pub variance : WelfordProfile W → W
  variance p = if ltb 1 p.count then p.m2 ⊘ num (p.count - 1) else num 0

  unfoldable pub stddev : WelfordProfile W → W
  unfolding variance
  stddev p = d.sqrt (variance p)

  abbrev pub is_stable : ℕ → WelfordProfile W → Bool
  is_stable min_samples p = leb min_samples p.count

  unfoldable pub normalize_distribution : List W → List W
  normalize_distribution dist =
      let total = sum dist in if num 0 ⊏ total then map (λ x. x ⊘ total) dist else dist

  -- `x || 1`: zero and NaN are replaced.
  abbrev pub or_one : W → W
  or_one x = if x ≐ num 0 then num 1 else if is_nan x then num 1 else x

  abbrev pub pi : W
  pi = d.ratio 3141592653589793 1000000000000000

  -- The density at the middle of each bin, from the i-th on.
  unfoldable pub densities : ℕ → ℕ → W → W → W → W → List W
  densities zero i mean std low width = []
  densities (suc n) i mean std low width =
      let x = low ⊕ (num i ⊕ d.ratio 5 10) ⊗ width in
      let z = (x ⊖ mean) ⊘ std in
      d.exp (neg (d.ratio 5 10) ⊗ z ⊗ z) ⊘ (std ⊗ d.sqrt (num 2 ⊗ pi)) ⊗ width
      ∷ densities n (i + 1) mean std low width

  unfoldable pub to_distribution : WelfordProfile W → ℕ → List W
  unfolding densities normalize_distribution stddev
  to_distribution p bins =
      if ltb p.count 10
      then replicate bins (num 0)
      else let std = or_one (stddev p) in
        let low = p.mean ⊖ num 3 ⊗ std in
        let high = p.mean ⊕ num 3 ⊗ std in
        normalize_distribution (densities bins 0 p.mean std low ((high ⊖ low) ⊘ num bins))

  unfoldable pub to_json : WelfordProfile W → WelfordSnapshot W
  to_json p = record { count = p.count; mean = p.mean; variance = variance p }

  unfoldable pub from_json : WelfordSnapshot W → WelfordProfile W
  from_json data_ = record {
    count = data_.count;
    mean = data_.mean;
    m2 = data_.variance ⊗ (num data_.count ⊖ num 1);
  }

  abbrev pub epsilon : W
  epsilon = d.ratio 1 10000000000

  unfoldable pub divergence : W → List W → List W → W
  divergence kl (p ∷ ps) (q ∷ qs) =
      divergence (kl ⊕ (p ⊕ epsilon) ⊗ d.log ((p ⊕ epsilon) ⊘ (q ⊕ epsilon))) ps qs
  divergence kl _ _ = kl

  unfoldable pub kl_divergence : List W → List W → Option W
  unfolding divergence
  kl_divergence p q = if length p == length q then some (divergence (num 0) p q) else none

  -- `empirical[idx]++` for each sample.
  unfoldable pub histogram : ℕ → W → W → List W → List ℕ → List ℕ
  histogram bins low width [] counts = counts
  histogram bins low width (v ∷ samples) counts =
      let idx = max (num 0) (min (num (bins - 1)) (d.floor ((v ⊖ low) ⊘ width))) in
      histogram bins low width samples (bump_at (d.index idx) counts)

  unfoldable pub compare_to_profile : WelfordProfile W → List W → ℕ → Option W
  unfolding histogram kl_divergence to_distribution
  compare_to_profile p samples bins =
      if not (is_stable 50 p)
      then some (num 0)
      else let std = or_one (stddev p) in
        let low = p.mean ⊖ num 3 ⊗ std in
        let high = p.mean ⊕ num 3 ⊗ std in
        let counts = histogram bins low ((high ⊖ low) ⊘ num bins) samples (replicate bins 0) in
        kl_divergence (normalize_distribution (map num counts)) (to_distribution p bins)
