-- ===== src/Trust/Signals.antt =====
-- gateway/src/services/trustSignals.ts: one adapter for each verifier.
use x402_health_oracle.Prelude.{
  ℕ, Bool, true, false, Option, none, some, List, [], ◌∷◌, ◌++◌, ltb, leb, if◌then◌else◌, Text,
  codes,
}
use x402_health_oracle.Encoding.Decimal.{to_decimal}
use x402_health_oracle.Double.{Double, ◌⊖◌, ◌⊘◌, num, min, max}
use x402_health_oracle.Classifier.{AgentClass, human, legit_agent, malicious_bot}
use x402_health_oracle.Trust.Engine.{TrustSignal}

abbrev class_name : AgentClass → Text
class_name human = codes "HUMAN"
class_name legit_agent = codes "LEGIT_AGENT"
class_name malicious_bot = codes "MALICIOUS_BOT"

abbrev reason_or : Option Text → Text → Text
reason_or none given = given
reason_or (some r) _ = r

module _ {ℓ} {W : Type ℓ} ⦃d : Double W⦄ where
  unfoldable pub pqc_session_signal : Bool → TrustSignal W
  pqc_session_signal established = record {
    id = codes "pqc_session";
    hard_fail = true;
    score = if established then num 1 else num 0;
    weight = num 0;
    reasons = if established then [] else codes "no ML-KEM-768 session established" ∷ [];
  }

  unfoldable pub entropy_seal_signal : Bool → Option Text → TrustSignal W
  entropy_seal_signal seal_valid reason = record {
    id = codes "entropy_seal";
    hard_fail = true;
    score = if seal_valid then num 1 else num 0;
    weight = num 0;
    reasons = if seal_valid then [] else reason_or reason (codes "entropy seal invalid") ∷ [];
  }

  unfoldable pub automation_signal : Bool → List Text → TrustSignal W
  automation_signal detected reasons = record {
    id = codes "automation";
    hard_fail = true;
    score = if detected then num 0 else num 1;
    weight = num 0;
    reasons = if detected then reasons else [];
  }

  unfoldable pub frankenstein_signal : ℕ → TrustSignal W
  frankenstein_signal score =
      let failed = leb 100 score in
      record {
        id = codes "frankenstein";
        hard_fail = failed;
        score = if failed then num 0 else max (num 0) (num 1 ⊖ num score ⊘ num 100);
        weight = num 1;
        reasons =
            if failed
            then (codes "frankenstein score " ++ to_decimal score ++ codes " >= 100") ∷ []
            else if ltb 0 score
            then (codes "frankenstein score " ++ to_decimal score) ∷ []
            else [];
      }

  unfoldable pub rhythm_trust_signal : W → TrustSignal W
  rhythm_trust_signal trust_score = record {
    id = codes "rhythm";
    hard_fail = false;
    score = max (num 0) (min (num 1) trust_score);
    weight = num 2;
    reasons = (codes "rhythm trustScore=" ++ d.to_fixed 2 trust_score) ∷ [];
  }

  abbrev class_score : AgentClass → W → W
  class_score malicious_bot confidence = num 1 ⊖ confidence
  class_score human confidence = confidence
  class_score legit_agent confidence = confidence

  unfoldable pub classifier_signal : AgentClass → W → TrustSignal W
  classifier_signal agent_class confidence = record {
    id = codes "classifier";
    hard_fail = false;
    score = class_score agent_class confidence;
    weight = d.ratio 15 10;
    reasons =
        (codes "class="
          ++ class_name agent_class
          ++ codes " confidence="
          ++ d.to_fixed 2 confidence)
        ∷ [];
  }

  -- `sybil_threshold` is 3 where the caller gives none.
  unfoldable pub wallet_sybil_signal : ℕ → ℕ → TrustSignal W
  wallet_sybil_signal shared_wallets sybil_threshold = record {
    id = codes "wallet_sybil";
    hard_fail = false;
    score = max (num 0) (num 1 ⊖ (num shared_wallets ⊖ num 1) ⊘ num sybil_threshold);
    weight = num 1;
    reasons =
        if ltb 1 shared_wallets
        then (codes "behavioral fingerprint shared by "
            ++ to_decimal shared_wallets
            ++ codes " wallets")
          ∷ []
        else [];
  }
