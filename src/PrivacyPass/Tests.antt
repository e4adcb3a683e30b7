-- ===== src/PrivacyPass/Tests.antt =====
-- The issuer over a group of order three, whose points are written as 49 equal bytes.
use x402_health_oracle.Prelude.{
  ℕ, zero, suc, ◌⊎◌, inl, inr, ◌*◌, ◌%◌, ◌<◌, ◌≡◌, ◌≢◌, refl, Bool, true, false, Option, none, some,
  [], ◌∷◌, ◌==◌, arith, replicate, length, Text, codes, All, if◌then◌else◌, text_Eq,
}
use x402_health_oracle.Encoding.Hex.{Bytes, IsByte, hex_digit, nibble, to_hex, from_hex, is_hex}
use x402_health_oracle.PrivacyPass.Oprf.{
  Suite, IsPrimeGroup, ◌>>=◌, blind, blind_evaluate, evaluate, finalize, hash_to_group,
  hex_to_bytes, deserialize_element, serialize_element, i2osp2, concat_bytes, finalize_hash,
}
use x402_health_oracle.PrivacyPass.Oprf.Roundtrip.{
  deserialize-serialize, finalize-blind_evaluate-blind,
}
use x402_health_oracle.PrivacyPass.Issuer.{Issuer, nonce_bytes, valid, redeem, prune_if_due}
use x402_health_oracle.PrivacyPass.Issuer.Spent.{IsValid}
use x402_health_oracle.PrivacyPass.Issuer.Redeem.{redeem_once, redeem_honest}

data Point : Type 0 where
  identity one two : Point

abbrev point_of : ℕ → Point
point_of n = if n % 3 == 0 then identity else if n % 3 == 1 then one else two

abbrev number_of : Point → ℕ
number_of identity = 0
number_of one = 1
number_of two = 2

abbrev times : Point → ℕ → Point
times e a = point_of (number_of e * a)

abbrev read_point : Text → Option Point
read_point (_ ∷ c ∷ _) = some (point_of c)
read_point _ = none

abbrev is_identity : Point → Bool
is_identity identity = true
is_identity one = false
is_identity two = false

abbrev toy_hash : Bytes → Bytes
toy_hash m = replicate 48 (length m % 256)

abbrev toy_suite : Suite
toy_suite = record {
  Element = Point;
  order = 3;
  base = one;
  multiply = times;
  hash_to_curve = λ m dst. point_of (length m);
  to_bytes = λ e. replicate 49 (number_of e);
  point_from_hex = read_point;
  is_valid = λ e. true;
  is0 = is_identity;
  invert = λ a. a;
  sha384 = toy_hash;
}

times_comm : (e : Point) (a b : ℕ) → times (times e a) b ≡ times (times e b) a
times_comm identity a b = ground arith
times_comm one a b = ground arith
times_comm two a b = ground arith

one_or_two : (a : ℕ) → 0 < a → a < 3 → (a ≡ 1) ⊎ (a ≡ 2)
one_or_two a h k = omega arith

times_invert : (e : Point) (a : ℕ) → 0 < a → a < 3 → times (times e a) a ≡ e
times_invert identity a h k = ground arith
times_invert one a h k = elim (one_or_two a h k) [ inl e ↦ rw e refl | inr e ↦ rw e refl ]
times_invert two a h k = elim (one_or_two a h k) [ inl e ↦ rw e refl | inr e ↦ rw e refl ]

times_nonzero :
    (e : Point) (a : ℕ) → is_identity e ≡ false → 0 < a → a < 3 → is_identity (times e a) ≡ false
times_nonzero identity a n h k = cc
times_nonzero one a n h k = ground arith
times_nonzero two a n h k = ground arith

replicate-IsByte : (n k : ℕ) → n < 256 → All IsByte (replicate k n)
replicate-IsByte n zero h = tt
replicate-IsByte n (suc k) h = (h, replicate-IsByte n k h)

read-written : (e : Point) → read_point (to_hex (replicate 49 (number_of e))) ≡ some e
unfolding to_hex hex_digit
read-written identity = refl
read-written one = refl
read-written two = refl

number_of-lt : (e : Point) → number_of e < 256
number_of-lt identity = omega arith
number_of-lt one = omega arith
number_of-lt two = omega arith

toy_suite-IsPrimeGroup : IsPrimeGroup toy_suite
toy_suite-IsPrimeGroup = record {
  order_pos = omega arith;
  multiply_comm = times_comm;
  multiply_invert = times_invert;
  multiply_nonzero = times_nonzero;
  to_bytes-IsByte = λ e. replicate-IsByte (number_of e) 49 (number_of-lt e);
  length-to_bytes = λ e. refl;
  point_from_hex-to_hex = read-written;
  valid = λ e. refl;
  length-sha384 = λ m. refl;
  sha384-IsByte = λ m. replicate-IsByte (length m % 256) 48 (omega arith);
}

-- Eight zero bytes, which hash to the point two.
abbrev a_nonce : Bytes
a_nonce = replicate 8 0

finalize-blind_evaluate-blind_example :
    (blind toy_suite a_nonce 2 >>= (λ blinded.
      blind_evaluate toy_suite 1 blinded >>= (λ evaluated. finalize toy_suite a_nonce 2 evaluated)))
    ≡ evaluate toy_suite 1 a_nonce
unfolding hash_to_group
finalize-blind_evaluate-blind_example =
    finalize-blind_evaluate-blind toy_suite toy_suite-IsPrimeGroup 1 2 a_nonce (omega arith)
      (omega arith) (omega arith) (omega arith) refl

deserialize-serialize_example :
    deserialize_element toy_suite (serialize_element toy_suite two) ≡ some two
deserialize-serialize_example = deserialize-serialize toy_suite toy_suite-IsPrimeGroup two refl

abbrev an_issuer : Issuer
an_issuer = record {
  sk = 1;
  public_key_hex = codes "01";
  max_batch = 10;
  spent_ttl_ms = 1000;
  max_spent = 2;
  spent = [];
  issued = 0;
  redeemed = 0;
  rejected = 0;
  last_prune = 0;
}

an_issuer-IsValid : IsValid an_issuer
an_issuer-IsValid = record { room = omega arith; bounded = omega arith; distinct = tt }

abbrev nonce_hex : Text
nonce_hex = replicate 16 b'0'

-- What the toy hash makes of the 72 bytes that `finalize_hash` puts together.
abbrev output_hex : Text
output_hex = to_hex (toy_hash (replicate 69 0))

nonce_bytes-nonce_hex : nonce_bytes nonce_hex ≡ some a_nonce
unfolding nonce_bytes hex_to_bytes is_hex from_hex nibble
nonce_bytes-nonce_hex = refl

evaluate-a_nonce : evaluate toy_suite 1 a_nonce ≡ some output_hex
unfolding evaluate finalize_hash concat_bytes i2osp2 hash_to_group
evaluate-a_nonce = refl

redeem_honest_example : (redeem toy_suite an_issuer nonce_hex output_hex 5 6).1 ≡ valid
unfolding prune_if_due
redeem_honest_example =
    redeem_honest toy_suite toy_suite-IsPrimeGroup an_issuer nonce_hex output_hex a_nonce 5 6
      nonce_bytes-nonce_hex evaluate-a_nonce refl

redeem_once_example :
    (redeem toy_suite
      (redeem toy_suite an_issuer nonce_hex output_hex 5 6).0
      nonce_hex
      output_hex
      7
      8).1
    ≢ valid
redeem_once_example =
    redeem_once toy_suite an_issuer nonce_hex output_hex nonce_hex output_hex 5 6 7 8
      an_issuer-IsValid refl redeem_honest_example (omega arith)
