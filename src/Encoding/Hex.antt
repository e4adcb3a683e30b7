-- ===== src/Encoding/Hex.antt =====
-- Bytes as hexadecimal text, over lists of code points.
use x402_health_oracle.Prelude.{
  ℕ, ◌+◌, ◌-◌, ◌*◌, ◌/◌, ◌%◌, ◌<◌, ◌≡◌, refl, Bool, true, false, ◌&&◌, Option, none, some, List, [],
  ◌∷◌, leb, ltb, if◌then◌else◌, arith, All, Text, length, lower_code, to_lower,
}

abbrev pub IsByte : ℕ → Type 0
IsByte b = b < 256

abbrev pub Bytes : Type 0
Bytes = List ℕ

unfoldable pub hex_digit : ℕ → ℕ
hex_digit n = if ltb n 10 then b'0' + n else b'a' + (n - 10)

unfoldable pub nibble : ℕ → Option ℕ
nibble c =
    if leb b'0' c && leb c b'9'
    then some (c - b'0')
    else if leb b'a' c && leb c b'f'
    then some (c - b'a' + 10)
    else if leb b'A' c && leb c b'F'
    then some (c - b'A' + 10)
    else none

-- `Buffer.from(bytes).toString('hex')`
unfoldable pub to_hex : Bytes → Text
to_hex [] = []
to_hex (b ∷ bs) = hex_digit (b / 16) ∷ hex_digit (b % 16) ∷ to_hex bs

-- `Buffer.from(s, 'hex')` stops before the first pair that is not two hexadecimal digits.
unfoldable pub from_hex : Text → Bytes
from_hex [] = []
from_hex (_ ∷ []) = []
from_hex (x ∷ y ∷ s) =
    let rest = from_hex s in
    elim (nibble x) [
      | none ↦ []
      | some h ↦ elim (nibble y) [ none ↦ [] | some l ↦ (h * 16 + l) ∷ rest ]
    ]

-- `/^[0-9a-f]*$/i.test(s)`
unfoldable pub is_hex : Text → Bool
is_hex [] = true
is_hex (c ∷ s) = elim (nibble c) [ none ↦ false | some _ ↦ is_hex s ]

nibble-hex_digit : (n : ℕ) → n < 16 → nibble (hex_digit n) ≡ some n
unfolding nibble hex_digit
nibble-hex_digit n h = ground arith

-- What was written as hexadecimal text is read back.
pub from_hex-to_hex : (bs : Bytes) → All IsByte bs → from_hex (to_hex bs) ≡ bs
unfolding from_hex to_hex
from_hex-to_hex [] h = refl
from_hex-to_hex (b ∷ bs) (lt, h) = ground (
  arith,
  nibble-hex_digit (b / 16) (omega arith),
  nibble-hex_digit (b % 16) (omega arith),
  from_hex-to_hex bs h,
)

pub is_hex-to_hex : (bs : Bytes) → All IsByte bs → is_hex (to_hex bs) ≡ true
unfolding is_hex to_hex
is_hex-to_hex [] h = refl
is_hex-to_hex (b ∷ bs) (lt, h) = ground (
  arith,
  nibble-hex_digit (b / 16) (omega arith),
  nibble-hex_digit (b % 16) (omega arith),
  is_hex-to_hex bs h,
)

pub length-to_hex : (bs : Bytes) → length (to_hex bs) ≡ 2 * length bs
unfolding to_hex
length-to_hex [] = omega arith
length-to_hex (b ∷ bs) = omega (arith, length-to_hex bs)

lower-hex_digit : (n : ℕ) → n < 16 → lower_code (hex_digit n) ≡ hex_digit n
unfolding lower_code hex_digit
lower-hex_digit n h = ground arith

-- Hexadecimal text is in lower case.
pub to_lower-to_hex : (bs : Bytes) → All IsByte bs → to_lower (to_hex bs) ≡ to_hex bs
unfolding to_hex
to_lower-to_hex [] h = refl
to_lower-to_hex (b ∷ bs) (lt, h) = ground (
  arith,
  lower-hex_digit (b / 16) (omega arith),
  lower-hex_digit (b % 16) (omega arith),
  to_lower-to_hex bs h,
)
