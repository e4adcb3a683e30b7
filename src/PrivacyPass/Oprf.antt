-- ===== src/PrivacyPass/Oprf.antt =====
-- The OPRF functions of gateway/src/services/privacyPass.ts. The curve and the hash are those of
-- @noble/curves and @noble/hashes: the parameter `Suite`. A function that throws returns `none`.
-- Random bytes are an argument.
pub mod Roundtrip
use x402_health_oracle.Prelude.{
  ℕ, ◌+◌, ◌*◌, ◌/◌, ◌%◌, ◌<◌, ◌≡◌, Bool, true, false, ◌&&◌, ◌||◌, Option, none, some, List, [], ◌∷◌,
  ◌++◌, ◌==◌, leb, ltb, if◌then◌else◌, not, Text, codes, length, All,
}
use x402_health_oracle.Encoding.Hex.{Bytes, IsByte, to_hex, from_hex, is_hex}

pub record Suite : Type 1 where
  pub Element : Type 0
  pub order : ℕ
  pub base : Element
  pub multiply : Element → ℕ → Element
  pub hash_to_curve : Bytes → Bytes → Element
  -- `el.toBytes(true)`
  pub to_bytes : Element → Bytes
  -- `Point.fromHex(hex)`, which throws off the curve
  pub point_from_hex : Text → Option Element
  -- `el.assertValidity()` returns
  pub is_valid : Element → Bool
  pub is0 : Element → Bool
  pub invert : ℕ → ℕ
  pub sha384 : Bytes → Bytes

infixl 5 ◌>>=◌
abbrev pub ◌>>=◌ {ℓ κ} : {A : Type ℓ} {B : Type κ} → Option A → (A → Option B) → Option B
none >>= f = none
some a >>= f = f a

abbrev pub element_bytes : ℕ
element_bytes = 49

abbrev pub output_bytes : ℕ
output_bytes = 48

unfoldable pub concat_bytes : List Bytes → Bytes
concat_bytes [] = []
concat_bytes (bs ∷ rest) = bs ++ concat_bytes rest

-- Two bytes, the high one first; a RangeError above 0xffff.
unfoldable pub i2osp2 : ℕ → Option Bytes
i2osp2 n = if ltb 0xffff n then none else some ((n / 256) % 256 ∷ n % 256 ∷ [])

unfoldable pub hex_to_bytes : Text → Option Bytes
hex_to_bytes hex =
    if not (length hex % 2 == 0) || not (is_hex hex) then none else some (from_hex hex)

-- `BigInt('0x' + bytesToHex(bytes))`
unfoldable pub big_endian : ℕ → Bytes → ℕ
big_endian acc [] = acc
big_endian acc (b ∷ bs) = big_endian (acc * 256 + b) bs

abbrev pub context_string : Bytes
context_string = codes "OPRFV1-" ++ (0x00 ∷ codes "-P384-SHA384")

abbrev pub h2g_dst : Bytes
h2g_dst = codes "HashToGroup-" ++ context_string

module _ (s : Suite) where
  open s use {
    Element, order, base, multiply, hash_to_curve, to_bytes, point_from_hex, is_valid, is0, invert,
    sha384,
  }

  unfoldable pub hash_to_group : Bytes → Element
  hash_to_group input = hash_to_curve input h2g_dst

  unfoldable pub serialize_element : Element → Text
  serialize_element el = to_hex (to_bytes el)

  unfoldable pub deserialize_element : Text → Option Element
  deserialize_element hex = do
    bytes ← hex_to_bytes hex
    el ← if not (length bytes == element_bytes) then none else point_from_hex hex
    if not (is_valid el) || is0 el then none else some el

  unfoldable pub finalize_hash : Bytes → Bytes → Option Bytes
  finalize_hash input unblinded = do
    input_length ← i2osp2 (length input)
    element_length ← i2osp2 (length unblinded)
    some (
        sha384 (
          concat_bytes (input_length ∷ input ∷ element_length ∷ unblinded ∷ codes "Finalize" ∷ [])))

  -- Blind(input) with the scalar that was given or drawn; the blinded element, serialized.
  unfoldable pub blind : Bytes → ℕ → Option Text
  blind input scalar =
      if scalar == 0 || leb order scalar
      then none
      else some (serialize_element (multiply (hash_to_group input) scalar))

  unfoldable pub finalize : Bytes → ℕ → Text → Option Text
  finalize input blind_scalar evaluated_hex = do
    evaluated ← deserialize_element evaluated_hex
    output ← finalize_hash input (to_bytes (multiply evaluated (invert blind_scalar)))
    some (to_hex output)

  unfoldable pub blind_evaluate : ℕ → Text → Option Text
  blind_evaluate sk blinded_hex = do
    blinded ← deserialize_element blinded_hex
    some (serialize_element (multiply blinded sk))

  unfoldable pub evaluate : ℕ → Bytes → Option Text
  evaluate sk input = do
    output ← finalize_hash input (to_bytes (multiply (hash_to_group input) sk))
    some (to_hex output)

  -- The draws of 48 random bytes in turn; `none` if they run out before one is not zero.
  unfoldable pub random_scalar : List Bytes → Option ℕ
  random_scalar [] = none
  random_scalar (draw ∷ draws) =
      let r = big_endian 0 draw % order in if not (r == 0) then some r else random_scalar draws

  unfoldable pub parse_secret_key : Text → Option ℕ
  parse_secret_key hex = do
    bytes ← hex_to_bytes hex
    let k = big_endian 0 bytes % order
    if not (length bytes == 48) || k == 0 then none else some k

  unfoldable pub public_key : ℕ → Text
  public_key sk = serialize_element (multiply base sk)

-- What the code relies on of the curve: scalar multiplication is that of a group of prime order,
-- compressed points have 49 bytes and are read back, and validity is that of a point on the curve.
pub record IsPrimeGroup (s : Suite) : Type 0 where
  pub order_pos : 1 < s.order
  pub multiply_comm :
      (e : s.Element) (a b : ℕ) → s.multiply (s.multiply e a) b ≡ s.multiply (s.multiply e b) a
  pub multiply_invert :
      (e : s.Element) (a : ℕ) → 0 < a → a < s.order → s.multiply (s.multiply e a) (s.invert a) ≡ e
  pub multiply_nonzero :
      (e : s.Element) (a : ℕ)
      → s.is0 e ≡ false
      → 0 < a
      → a < s.order
      → s.is0 (s.multiply e a) ≡ false
  pub to_bytes-IsByte : (e : s.Element) → All IsByte (s.to_bytes e)
  pub length-to_bytes : (e : s.Element) → length (s.to_bytes e) ≡ 49
  pub point_from_hex-to_hex : (e : s.Element) → s.point_from_hex (to_hex (s.to_bytes e)) ≡ some e
  pub valid : (e : s.Element) → s.is_valid e ≡ true
  pub length-sha384 : (m : Bytes) → length (s.sha384 m) ≡ 48
  pub sha384-IsByte : (m : Bytes) → All IsByte (s.sha384 m)
