-- ===== src/Double.antt =====
-- A JavaScript `number` that is not known to be a whole number: a double. The model takes the type
-- and its operations as a parameter; `Double.Laws` names what a proof may use of them, and
-- `Double.Fixed` is a concrete type of which the laws hold. Whole numbers (counts, scores, times)
-- are `ℕ` everywhere else.
pub mod Laws
pub mod Fixed
use x402_health_oracle.Prelude.{
  ℕ, zero, suc, Bool, true, false, not, ◌||◌, ◌&&◌, Option, Text, List, [], ◌∷◌, if◌then◌else◌,
}

pub record Double {ℓ} (W : Type ℓ) : Type ℓ where
  pub nan : W
  -- The double nearest to n / d: the literal 0.15 is `ratio 15 100`.
  pub ratio : ℕ → ℕ → W
  pub add : W → W → W
  pub sub : W → W → W
  pub mul : W → W → W
  pub div : W → W → W
  pub le : W → W → Bool
  pub lt : W → W → Bool
  pub is_finite : W → Bool
  pub sqrt : W → W
  pub exp : W → W
  pub log : W → W
  pub log2 : W → W
  pub floor : W → W
  -- `x.toFixed(k)`, and the text of a number in a template.
  pub to_fixed : ℕ → W → Text
  pub print : W → Text
  -- `Number(text)`
  pub parse : Text → W
  -- The array index that a number denotes; a number that denotes none names no element.
  pub index : W → Option ℕ

module _ {ℓ} {W : Type ℓ} ⦃d : Double W⦄ where
  infixl 65 ◌⊕◌ ◌⊖◌
  infixl 70 ◌⊗◌ ◌⊘◌
  infix 50 ◌⊑◌ ◌⊏◌ ◌≐◌
  abbrev pub ◌⊕◌ : W → W → W
  ◌⊕◌ = d.add

  abbrev pub ◌⊖◌ : W → W → W
  ◌⊖◌ = d.sub

  abbrev pub ◌⊗◌ : W → W → W
  ◌⊗◌ = d.mul

  abbrev pub ◌⊘◌ : W → W → W
  ◌⊘◌ = d.div

  abbrev pub ◌⊑◌ : W → W → Bool
  ◌⊑◌ = d.le

  abbrev pub ◌⊏◌ : W → W → Bool
  ◌⊏◌ = d.lt

  -- `a === b` of two numbers.
  abbrev pub ◌≐◌ : W → W → Bool
  a ≐ b = d.le a b && d.le b a

  -- The literal n.
  abbrev pub num : ℕ → W
  num n = d.ratio n 1

  -- `isNaN`
  abbrev pub is_nan : W → Bool
  is_nan x = not (d.le x x)

  abbrev pub neg : W → W
  neg x = num 0 ⊖ x

  abbrev pub abs : W → W
  abs x = if x ⊏ num 0 then neg x else x

  -- `Math.min` and `Math.max` of two numbers are NaN if one of them is.
  abbrev pub min : W → W → W
  min x y = if x ⊑ y then x else if y ⊑ x then y else d.nan

  abbrev pub max : W → W → W
  max x y = if y ⊑ x then x else if x ⊑ y then y else d.nan

  abbrev pub square : W → W
  square x = x ⊗ x

  -- `xs.reduce((a, b) => a + b, 0)`
  abbrev pub sum_from : W → List W → W
  sum_from acc [] = acc
  sum_from acc (x ∷ xs) = sum_from (acc ⊕ x) xs

  abbrev pub sum : List W → W
  sum = sum_from (num 0)
