-- ===== src/Double/Laws.antt =====
-- What the proofs use of doubles: the order is total away from NaN, and rounding keeps order.
use x402_health_oracle.Prelude.{ℕ, ◌≤◌, ◌<◌, ◌≡◌, ◌⊎◌, true, not, arith}
use x402_health_oracle.Double.{Double, ◌⊏◌, ◌⊖◌, num, neg, min, max}

infix 4 ◌≼◌
abbrev pub ◌≼◌ {ℓ} : {W : Type ℓ} ⦃d : Double W⦄ → W → W → Type 0
◌≼◌ ⦃d⦄ x y = d.le x y ≡ true

-- Every double but NaN is `<=` itself.
abbrev pub IsNumber {ℓ} : {W : Type ℓ} ⦃d : Double W⦄ → W → Type 0
IsNumber x = x ≼ x

pub record IsOrdered {ℓ} (W : Type ℓ) ⦃d : Double W⦄ : Type ℓ where
  pub number_of_le : (x y : W) → x ≼ y → IsNumber x × IsNumber y
  pub le_trans : (x y z : W) → x ≼ y → y ≼ z → x ≼ z
  pub le_total : (x y : W) → IsNumber x → IsNumber y → (x ≼ y) ⊎ (y ≼ x)
  pub number_of_lt : (x y : W) → d.lt x y ≡ true → IsNumber x × IsNumber y
  pub lt-eq-not-le : (x y : W) → IsNumber x → IsNumber y → d.lt x y ≡ not (d.le y x)
  -- Literals of one denominator are numbers in the order of their numerators.
  pub ratio_mono : (a b n : ℕ) → a ≤ b → 0 < n → d.ratio a n ≼ d.ratio b n
  -- The negative of a literal is a number.
  pub neg_number : (n : ℕ) → IsNumber {W = W} (neg (num n))
  -- A difference that is no NaN has the sign of its true value.
  pub sub_nonneg : (x y : W) → y ≼ x → IsNumber (x ⊖ y) → num 0 ≼ x ⊖ y

module _ {ℓ} {W : Type ℓ} ⦃d : Double W⦄ (laws : IsOrdered W) where
  open laws use {number_of_le, number_of_lt, le_trans, le_total, lt-eq-not-le}

  -- `Math.min(hi, Math.max(lo, x))` lies between the bounds, for every x that is no NaN.
  pub clamp_bounds :
      (lo hi x : W) → lo ≼ hi → IsNumber x → (lo ≼ min hi (max lo x)) × (min hi (max lo x) ≼ hi)
  clamp_bounds lo hi x h n =
      let (nlo, nhi) = number_of_le lo hi h in
      ground (arith, le_total lo x nlo n, le_total hi x nhi n, le_total hi lo nhi nlo)

  pub lt_of_le-lt : (v w t : W) → v ≼ w → (w ⊏ t) ≡ true → (v ⊏ t) ≡ true
  lt_of_le-lt v w t le lt = ground (
    arith,
    number_of_le v w le,
    number_of_lt w t lt,
    lt-eq-not-le w t,
    lt-eq-not-le v t,
    le_trans t v w,
  )

  pub lt_of_lt-le : (t v w : W) → (t ⊏ v) ≡ true → v ≼ w → (t ⊏ w) ≡ true
  lt_of_lt-le t v w lt le = ground (
    arith,
    number_of_le v w le,
    number_of_lt t v lt,
    lt-eq-not-le t v,
    lt-eq-not-le t w,
    le_trans v w t,
  )
