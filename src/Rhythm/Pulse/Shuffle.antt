-- ===== src/Rhythm/Pulse/Shuffle.antt =====
-- The shuffle only reorders, and what that says of the pulse.
use x402_health_oracle.Prelude.{
  ℕ, zero, suc, ◌+◌, ◌%◌, ◌<◌, ◌≡◌, refl, ◌∙◌, List, [], ◌∷◌, arith, get_or, set, length,
  length-set, ◌==◌, if◌then◌else◌,
}
use x402_health_oracle.Encoding.Hex.{Bytes}
use x402_health_oracle.Rhythm.Pulse.{pi_sequence, seed_at, swap, shuffle}

abbrev pub count : ℕ → List ℕ → ℕ
count a [] = 0
count a (x ∷ xs) = (if x == a then 1 else 0) + count a xs

abbrev hit : ℕ → ℕ → ℕ
hit a x = if x == a then 1 else 0

-- A write takes one element away and puts another in.
count-set :
    (a : ℕ) (xs : List ℕ) (i v : ℕ)
    → i < length xs
    → count a (set xs i v) + hit a (get_or xs i 0) ≡ count a xs + hit a v
count-set a [] i v h = absurd (omega arith)
count-set a (x ∷ xs) zero v h = omega arith
count-set a (x ∷ xs) (suc i) v h = omega (arith, count-set a xs i v)

get_or-set :
    (xs : List ℕ) (i j v : ℕ)
    → i < length xs
    → get_or (set xs i v) j 0 ≡ (if i == j then v else get_or xs j 0)
get_or-set [] i j v h = absurd (omega arith)
get_or-set (x ∷ xs) zero zero v h = refl
get_or-set (x ∷ xs) zero (suc j) v h = ground arith
get_or-set (x ∷ xs) (suc i) zero v h = ground arith
get_or-set (x ∷ xs) (suc i) (suc j) v h = ground (arith, get_or-set xs i j v)

count-swap :
    (a : ℕ) (xs : List ℕ) (i j : ℕ)
    → i < length xs
    → j < length xs
    → count a (swap i j xs) ≡ count a xs
count-swap a xs i j hi hj =
    let first = set xs i (get_or xs j 0) in
    ground (
      arith,
      count-set a xs i (get_or xs j 0) hi,
      count-set a first j (get_or xs i 0),
      length-set xs i (get_or xs j 0),
      get_or-set xs i j (get_or xs j 0) hi,
    )

count-shuffle :
    (a : ℕ) (seed : Bytes) (i : ℕ) (xs : List ℕ)
    → i < length xs
    → (count a (shuffle seed i xs) ≡ count a xs) × (length (shuffle seed i xs) ≡ length xs)
unfolding shuffle
count-shuffle a seed zero xs h = (refl, refl)
count-shuffle a seed (suc i) xs h =
    let j = seed_at seed (suc i) % (suc i + 1) in
    let below : j < suc i + 1 = omega arith in
    let same = count-swap a xs (suc i) j h (omega arith) in
    let long : length (swap (suc i) j xs) ≡ length xs = omega (
      arith,
      length-set xs (suc i) (get_or xs j 0),
      length-set (set xs (suc i) (get_or xs j 0)) j (get_or xs (suc i) 0),
    ) in
    let (counts, lengths) = count-shuffle a seed i (swap (suc i) j xs) (omega arith) in
    (counts ∙ same, lengths ∙ long)

-- Whatever the seed, the shuffled sequence holds the sixteen digits as often as the original.
pub shuffle-count :
    (a : ℕ) (seed : Bytes)
    → (count a (shuffle seed 15 pi_sequence) ≡ count a pi_sequence)
      × (length (shuffle seed 15 pi_sequence) ≡ 16)
shuffle-count a seed = count-shuffle a seed 15 pi_sequence (omega arith)
