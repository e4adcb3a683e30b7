-- ===== src/Double/Fixed.antt =====
-- Decimal numbers with three digits after the point, and `none` for NaN: a type of which the laws
-- of `Double.Laws` hold, for concrete inputs. `sqrt`, `exp`, `log` and `log2` are not used there
-- but to be evaluated, and stand for themselves.
use x402_health_oracle.Prelude.{
  ℕ, zero, suc, ◌+◌, ◌*◌, ◌/◌, ◌≤◌, ◌<◌, ◌≡◌, Bool, true, false, Option, none, some, arith, Text,
  codes, [], ◌∷◌, leb, ◌-◌, ◌&&◌, if◌then◌else◌, ◌==◌,
}
use native.Mathlib.Nat.{le-div_iff_mul-le, div-mul-le_self}
use x402_health_oracle.Prelude.Int.{ℤ, pos, negsuc, pos_part, neg_part, ◌+ℤ◌, ◌-ℤ◌, ◌*ℤ◌, ltb_ℤ}
use x402_health_oracle.Encoding.Decimal.{to_decimal}
use x402_health_oracle.Double.{Double}
use x402_health_oracle.Double.Laws.{IsOrdered}

abbrev pub Fixed : Type 0
Fixed = Option ℤ

abbrev lift : (ℤ → ℤ → ℤ) → Fixed → Fixed → Fixed
lift f (some a) (some b) = some (f a b)
lift f _ _ = none

abbrev test : (ℤ → ℤ → Bool) → Fixed → Fixed → Bool
test f (some a) (some b) = f a b
test f _ _ = false

abbrev leb_ℤ : ℤ → ℤ → Bool
leb_ℤ a b = leb (pos_part a + neg_part b) (pos_part b + neg_part a)

-- Division by a positive whole number, towards minus infinity.
abbrev div_ℕ : ℤ → ℕ → ℤ
div_ℕ (pos n) k = pos (n / k)
div_ℕ (negsuc n) k = negsuc (n / k)

abbrev times : ℤ → ℤ → ℤ
times a b = div_ℕ (a *ℤ b) 1000

abbrev over : ℤ → ℤ → ℤ
over a (pos n) = div_ℕ (a *ℤ pos 1000) n
over a (negsuc n) = div_ℕ (pos 0 -ℤ (a *ℤ pos 1000)) (suc n)

abbrev quotient : Fixed → Fixed → Fixed
quotient a (some (pos zero)) = none
quotient a b = lift over a b

abbrev is_number : Fixed → Bool
is_number none = false
is_number (some _) = true

abbrev whole : Fixed → Fixed
whole none = none
whole (some a) = some (div_ℕ a 1000 *ℤ pos 1000)

abbrev index_of : Fixed → Option ℕ
index_of (some (pos n)) = some (n / 1000)
index_of _ = none

-- The thousandths, without a point.
abbrev shown : Fixed → Text
shown none = codes "NaN"
shown (some (pos n)) = to_decimal n
shown (some (negsuc n)) = b'-' ∷ to_decimal (suc n)

-- Digits alone, and a sign before them.
abbrev read_digits : Text → ℕ → Fixed
read_digits [] n = some (pos n)
read_digits (c ∷ s) n =
    if leb b'0' c && leb c b'9' then read_digits s (n * 10 + (c - b'0')) else none

abbrev negated : Fixed → Fixed
negated none = none
negated (some a) = some (pos 0 -ℤ a)

abbrev read : Text → Fixed
read [] = some (pos 0)
read (c ∷ s) = if c == b'-' then negated (read_digits s 0) else read_digits (c ∷ s) 0

instance unfoldable pub fixed_Double : Double Fixed
unfolding ◌+ℤ◌ ◌-ℤ◌ ◌*ℤ◌ to_decimal
fixed_Double = record {
  nan = none;
  ratio = λ n k. some (pos (n * 1000 / k));
  add = lift ◌+ℤ◌;
  sub = lift ◌-ℤ◌;
  mul = lift times;
  div = quotient;
  le = test leb_ℤ;
  lt = test ltb_ℤ;
  is_finite = is_number;
  sqrt = λ x. x;
  exp = λ x. x;
  log = λ x. x;
  log2 = λ x. x;
  floor = whole;
  to_fixed = λ k x. shown x;
  print = shown;
  parse = read;
  index = index_of;
}

div_mono : (a b n : ℕ) → a ≤ b → 0 < n → leb_ℤ (pos (a * 1000 / n)) (pos (b * 1000 / n)) ≡ true
div_mono a b n h k =
    let below : a * 1000 / n * n ≤ b * 1000 = omega (arith, div-mul-le_self (a * 1000) n) in
    let le : a * 1000 / n ≤ b * 1000 / n = (le-div_iff_mul-le k).1 below in ground arith

pub Fixed-IsOrdered : IsOrdered Fixed
unfolding fixed_Double
Fixed-IsOrdered = record {
  number_of_le = λ x y h. ground arith;
  le_trans = λ x y z h k. ground arith;
  le_total = λ x y h k. ground arith;
  number_of_lt = λ x y h. ground arith;
  lt-eq-not-le = λ x y h k. ground arith;
  ratio_mono = div_mono;
  neg_number = λ n. ground arith;
  sub_nonneg = λ x y h k. ground arith;
}
