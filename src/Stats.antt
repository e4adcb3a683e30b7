-- ===== src/Stats.antt =====
-- gateway/src/utils/math.ts: statistics over lists of doubles.
use x402_health_oracle.Prelude.{
  ℕ, zero, suc, ◌+◌, ◌-◌, ◌*◌, ◌/◌, ◌||◌, not, Option, none, some, List, [], ◌∷◌, map, keep, ◌==◌,
  ltb, if◌then◌else◌, length, replicate,
}
use x402_health_oracle.Double.{
  Double, ◌⊕◌, ◌⊖◌, ◌⊗◌, ◌⊘◌, ◌⊑◌, ◌≐◌, num, neg, min, max, square, sum,
}

-- `counts[i]++`; a number that is no index of the array changes no element.
abbrev pub bump_at : Option ℕ → List ℕ → List ℕ
bump_at none counts = counts
bump_at (some i) [] = []
bump_at (some zero) (c ∷ counts) = suc c ∷ counts
bump_at (some (suc i)) (c ∷ counts) = c ∷ bump_at (some i) counts

-- `Math.max(4, Math.floor(n / 2))`
abbrev pub bins_of : ℕ → ℕ
bins_of n = if ltb 4 (n / 2) then n / 2 else 4

module _ {ℓ} {W : Type ℓ} ⦃d : Double W⦄ where
  -- `Math.min(...data)` and `Math.max(...data)` of data that are not empty
  abbrev pub minimum : W → List W → W
  minimum x [] = x
  minimum x (y ∷ ys) = min x (minimum y ys)

  abbrev pub maximum : W → List W → W
  maximum x [] = x
  maximum x (y ∷ ys) = max x (maximum y ys)

  abbrev pub mean_of : List W → W
  mean_of data_ = sum data_ ⊘ num (length data_)

  unfoldable pub fill_counts : ℕ → W → W → List W → List ℕ → List ℕ
  fill_counts bins low range [] counts = counts
  fill_counts bins low range (v ∷ vs) counts =
      fill_counts bins low range vs
        (bump_at (d.index (min (num bins ⊖ num 1) (d.floor ((v ⊖ low) ⊘ range ⊗ num bins)))) counts)

  unfoldable pub entropy_from : ℕ → W → List ℕ → W
  entropy_from n acc [] = acc
  entropy_from n acc (c ∷ counts) =
      let p = num c ⊘ num n in entropy_from n (acc ⊕ p ⊗ d.log2 p) counts

  unfoldable pub shannon_entropy : List W → W
  unfolding fill_counts entropy_from
  shannon_entropy [] = num 0
  shannon_entropy (x ∷ xs) =
      let n = length (x ∷ xs) in
      let bins = bins_of n in
      let low = minimum x xs in
      let range = maximum x xs ⊖ low in
      let counts = fill_counts bins low range (x ∷ xs) (replicate bins 0) in
      if range ≐ num 0 then num 0 else neg (entropy_from n (num 0) (keep (λ c. ltb 0 c) counts))

  -- `num += (data[i] - mean) * (data[i + 1] - mean)` for every i but the last
  unfoldable pub lag_products : W → W → W → List W → W
  lag_products mean acc x [] = acc
  lag_products mean acc x (y ∷ ys) = lag_products mean (acc ⊕ (x ⊖ mean) ⊗ (y ⊖ mean)) y ys

  abbrev pub lag_products_of : W → List W → W
  lag_products_of mean [] = num 0
  lag_products_of mean (x ∷ xs) = lag_products mean (num 0) x xs

  unfoldable pub calculate_autocorrelation : List W → W
  unfolding lag_products
  calculate_autocorrelation xs =
      let mean = mean_of xs in
      let den = sum (map (λ x. square (x ⊖ mean)) xs) in
      if ltb (length xs) 5
      then d.ratio 5 10
      else if den ≐ num 0
      then num 0
      else lag_products_of mean xs ⊘ den

  -- `[...arr].sort((a, b) => a - b)`, by insertion: a stable sort by `<=`.
  unfoldable pub insert : W → List W → List W
  insert x [] = x ∷ []
  insert x (y ∷ ys) = if x ⊑ y then x ∷ y ∷ ys else y ∷ insert x ys

  unfoldable pub sort : List W → List W
  unfolding insert
  sort [] = []
  sort (x ∷ xs) = insert x (sort xs)

  -- `sorted.indexOf(v)`; `none` is -1
  unfoldable pub index_of : ℕ → W → List W → Option ℕ
  index_of i v [] = none
  index_of i v (x ∷ xs) = if x ≐ v then some i else index_of (i + 1) v xs

  -- `first + 1 + (count - 1) / 2`
  abbrev pub rank_value : Option ℕ → ℕ → W
  rank_value none count = (num count ⊖ num 1) ⊘ num 2
  rank_value (some first) count = num (first + 1) ⊕ (num count ⊖ num 1) ⊘ num 2

  unfoldable pub calculate_rank : List W → List W
  unfolding sort index_of
  calculate_rank arr =
      let sorted = sort arr in
      map (λ v. rank_value (index_of 0 v sorted) (length (keep (λ e. e ≐ v) sorted))) arr

  unfoldable pub squared_differences : W → List W → List W → W
  squared_differences acc (x ∷ xs) (y ∷ ys) = squared_differences (acc ⊕ square (x ⊖ y)) xs ys
  squared_differences acc _ _ = acc

  unfoldable pub spearman_rank_correlation : List W → List W → W
  unfolding calculate_rank squared_differences
  spearman_rank_correlation xs ys =
      let n = length xs in
      let denominator = n * (n * n - 1) in
      let d2_sum = squared_differences (num 0) (calculate_rank xs) (calculate_rank ys) in
      if ltb n 2 || not (n == length ys)
      then num 0
      else if denominator == 0
      then num 0
      else num 1 ⊖ num 6 ⊗ d2_sum ⊘ num denominator
