-- ===== src/Seal.antt =====
-- gateway/src/services/sealValidator.ts. The base64 and JSON of the header are read by Node: the
-- parameter `read_header`, with `none` where an exception is thrown. The time stamp is a double, as
-- what a client sends may be no number; a sequence that is no whole number is `none`.
pub mod Acceptance
mod Tests
use x402_health_oracle.Prelude.{
  ℕ, ◌+◌, ◌*◌, Bool, true, false, ◌||◌, not, Option, none, some, List, [], ◌∷◌, ◌++◌, if◌then◌else◌,
  Text, text_Eq, ◌===◌, nat_Eq,
}
use x402_health_oracle.Crypto.{Crypto}
use x402_health_oracle.Encoding.Hex.{to_hex}
use x402_health_oracle.Encoding.Decimal.{to_decimal}
use x402_health_oracle.Double.{Double, ◌⊖◌, ◌⊏◌, num, neg}
use x402_health_oracle.Rhythm.Session.{Sessions, get_trust_status}

pub record SealData {ℓ} (W : Type ℓ) : Type ℓ where
  pub sig : Option Text
  pub ts : W
  pub seq : Option ℕ

pub record SealResult {ℓ} (W : Type ℓ) : Type ℓ where
  pub valid : Bool
  pub trust_impact : W
  pub requires_argon2 : Bool

-- `sealHeader` is absent or empty
abbrev pub header_text : Option Text → Option Text
header_text none = none
header_text (some []) = none
header_text (some (c ∷ s)) = some (c ∷ s)

abbrev pub noise_text : Option Text → Text
noise_text none = []
noise_text (some s) = s

module _ {ℓ} {W : Type ℓ} ⦃d : Double W⦄ where
  abbrev pub reject : W → SealResult W
  reject impact = record { valid = false; trust_impact = neg impact; requires_argon2 = true }

  -- `age > 5_000_000 + CLOCK_SKEW_US || age < -CLOCK_SKEW_US`, in microseconds
  unfoldable pub out_of_window : ℕ → W → Bool
  out_of_window now ts =
      let age = num (now * 1000) ⊖ ts in (num 35000000 ⊏ age) || (age ⊏ neg (num 30000000))

  abbrev pub argon2_cost_threshold : W
  argon2_cost_threshold = d.ratio 7 10

  unfoldable pub should_trigger_argon2 : Sessions W → Text → Bool
  should_trigger_argon2 m session_id = get_trust_status m session_id ⊏ argon2_cost_threshold

  -- The last step: an accepted packet, at the session's current trust.
  unfoldable pub accept : Sessions W → Text → SealResult W
  unfolding should_trigger_argon2
  accept m session_id =
      if should_trigger_argon2 m session_id
      then record { valid = true; trust_impact = d.ratio 2 100; requires_argon2 = true }
      else record { valid = true; trust_impact = d.ratio 5 100; requires_argon2 = false }

module _ (c : Crypto) where
  -- The three `update`s hash the concatenation.
  unfoldable pub expected_sig : c.Secret → Text → ℕ → Text → Text
  expected_sig secret session_id seq noise =
      to_hex (c.hmac_sha256 secret (session_id ++ (to_decimal seq ++ noise)))

module _ {ℓ} {W : Type ℓ} ⦃d : Double W⦄ (c : Crypto) where
  unfoldable pub check_seal :
      Sessions W → Text → SealData W → Text → ℕ → c.Secret → ℕ → SealResult W
  check_seal m session_id data_ noise packet_index secret now =
      if out_of_window now data_.ts then reject (d.ratio 5 10) else elim data_.seq [
        | none ↦ reject (d.ratio 6 10)
        | some seq ↦ if not (seq === packet_index) then reject (d.ratio 6 10) else elim data_.sig [
          | none ↦ reject (d.ratio 4 10)
          | some sig ↦
              if not (sig === expected_sig c secret session_id seq noise)
              then reject (d.ratio 4 10)
              else accept m session_id
        ]
      ]

  unfoldable pub verify_entropy_seal :
      (Text → Option (SealData W))
      → Sessions W
      → Text
      → Option Text
      → Option Text
      → ℕ
      → c.Secret
      → ℕ
      → SealResult W
  verify_entropy_seal read_header m session_id seal_header noise_header packet_index secret now =
      elim (header_text seal_header) [
        | none ↦ reject (d.ratio 3 10)
        | some header ↦ elim (read_header header) [
          | none ↦ reject (d.ratio 4 10)
          | some data_ ↦
              check_seal m session_id data_ (noise_text noise_header) packet_index secret now
        ]
      ]
