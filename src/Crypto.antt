-- ===== src/Crypto.antt =====
-- The hashes of Node's `crypto` module, each as the bytes of its digest: a parameter of what uses
-- them. All that is relied on is that a digest is a list of bytes.
use x402_health_oracle.Prelude.{ℕ, ◌+◌, ◌*◌, ◌%◌, [], ◌∷◌, Text, All, arith}
use x402_health_oracle.Encoding.Hex.{Bytes, IsByte}

pub record Crypto : Type 1 where
  pub Secret : Type 0
  pub hmac_sha256 : Secret → Text → Bytes
  pub sha256 : Text → Bytes
  pub hmac_sha256-IsByte : (s : Secret) (m : Text) → All IsByte (hmac_sha256 s m)

-- Keys are numbers and a hash is a sum: enough to run the model on concrete inputs.
abbrev pub toy_hmac : ℕ → Text → Bytes
toy_hmac k [] = k % 256 ∷ []
toy_hmac k (c ∷ m) = toy_hmac (k * 31 + c) m

pub toy_hmac-IsByte : (k : ℕ) (m : Text) → All IsByte (toy_hmac k m)
toy_hmac-IsByte k [] = (omega arith, tt)
toy_hmac-IsByte k (c ∷ m) = toy_hmac-IsByte (k * 31 + c) m

abbrev pub toy_crypto : Crypto
toy_crypto = record {
  Secret = ℕ;
  hmac_sha256 = toy_hmac;
  sha256 = toy_hmac 7;
  hmac_sha256-IsByte = toy_hmac-IsByte;
}
