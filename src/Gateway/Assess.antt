-- ===== src/Gateway/Assess.antt =====
-- `/api/classify`, `/api/trust-assessment` and `/api/agent/verify` of gateway/server.ts. The
-- fingerprint of the automation check is in the body, where the client sends one.
pub mod Enforced
use x402_health_oracle.Prelude.{
  ℕ, Bool, true, false, Option, none, some, List, [], ◌∷◌, map, if◌then◌else◌, Text, codes, length,
}
use x402_health_oracle.Crypto.{Crypto}
use x402_health_oracle.Double.{Double, ◌⊘◌, num, max}
use x402_health_oracle.Automation.{AutomationFingerprint, AutomationVerdict, detect_automation}
use x402_health_oracle.Classifier.{ClassificationInput, ClassificationResult, classify_agent}
use x402_health_oracle.Rhythm.Session.{Sessions, get_trust_status}
use x402_health_oracle.Wallet.{Bindings, WalletBinding, lookup_wallet, get_wallets_by_hash}
use x402_health_oracle.Trust.Engine.{
  TrustSignal, TrustAssessment, TrustDecision, allow, step_up, shadow_limit, deny, evaluate_trust,
}
use x402_health_oracle.Trust.Verdicts.{assessment_signals}
use x402_health_oracle.Identity.{
  Signatures, AgentCredential, CredentialCheck, verify_agent_credential, verify_ml_dsa_credential,
}
use x402_health_oracle.Identity.Decision.{AgentDecision, agent_trust_decision}
use x402_health_oracle.Gateway.Cache.{Cache, has}
use x402_health_oracle.Gateway.Guard.{Guard, ban, count_dropped}
use x402_health_oracle.Gateway.Rate.{Allowance, check_free_rate_limit}
use x402_health_oracle.Gateway.Request.{Request, user_agent, check_consistency, session_id_of}
use x402_health_oracle.Gateway.Enclave.{Session}
use x402_health_oracle.Gateway.Registry.{Measured, given}

abbrev pub no_verdict : AutomationVerdict
no_verdict = record { detected = false; reasons = [] }

unfoldable pub automation_of : Option AutomationFingerprint → AutomationVerdict
automation_of none = no_verdict
automation_of (some fp) = detect_automation fp

abbrev pub group_size : Bindings → Option WalletBinding → Option ℕ
group_size b none = none
group_size b (some binding) = some (length (get_wallets_by_hash b binding.behavioral_hash))

-- The field of a body that is `wallet`: missing (or another value that counts as false), a text, or
-- another value, on which `toLowerCase` throws.
pub data WalletField : Type 0 where
  no_wallet : WalletField
  wallet_text : Text → WalletField
  no_text : WalletField

-- The wallets that share the behaviour of the named wallet, if it is bound; `none` for the exception.
unfoldable pub shared_wallets : Bindings → WalletField → Option (Option ℕ)
shared_wallets b no_wallet = some none
shared_wallets b (wallet_text []) = some none
shared_wallets b (wallet_text (x ∷ w)) = some (group_size b (lookup_wallet b (x ∷ w)))
shared_wallets b no_text = none

abbrev pub is_deny : TrustDecision → Bool
is_deny allow = false
is_deny step_up = false
is_deny shadow_limit = false
is_deny deny = true

abbrev pub first_reason : List Text → Text
first_reason [] = codes "trust_assessment_deny"
first_reason (reason ∷ _) = reason

pub data AssessReply (W : Type 0) : Type 0 where
  rate_limited : AssessReply W
  -- the exception of `lookupWallet`
  thrown : AssessReply W
  assessed : TrustAssessment W → AssessReply W

module _ {W : Type 0} ⦃d : Double W⦄ where
  unfoldable pub classify_request : Measured W → Request → Bool → ClassificationResult
  classify_request m r has_pow = classify_agent (record {
    ua = user_agent r;
    spearman_rho = m.spearman_rho;
    variance = m.variance;
    entropy = m.entropy;
    frankenstein_score = check_consistency r;
    has_pow = has_pow;
  })

  -- `/api/classify`
  unfoldable pub classify_route :
      (c : Cache)
      → c.Store ℕ
      → Measured W
      → Request
      → Text
      → Bool
      → ℕ
      → c.Store ℕ × Option ClassificationResult
  classify_route c rates m r ip has_pow now =
      let (rates', rl) = check_free_rate_limit c rates ip now in
      (rates', if rl.allowed then some (classify_request m r has_pow) else none)

  -- The signals of a request, in the order of the source; `shared` is that of its wallet.
  unfoldable pub signals_of :
      Sessions W
      → Measured W
      → Request
      → Text
      → Bool
      → Bool
      → Option AutomationFingerprint
      → Option ℕ
      → List (TrustSignal W)
  signals_of rhythms m r ip has_session has_pow fp shared =
      let automation = automation_of fp in
      let class = classify_request m r has_pow in
      assessment_signals has_session automation.detected (map codes automation.reasons)
        (check_consistency r) (get_trust_status rhythms ip) class.agent_class
        (num class.winner ⊘ num class.total) shared

  module _ {c : Cache} where
    -- A denied client is banned.
    unfoldable pub enforce : Guard c → TrustAssessment W → Text → ℕ → Guard c
    enforce g a ip now =
        if is_deny a.decision then ban (count_dropped g) ip (first_reason a.reasons) now else g

    -- From the signals on; without them the wallet has thrown.
    unfoldable pub assess :
        {k : Crypto}
        → Guard c
        → c.Store (Session k)
        → Sessions W
        → Measured W
        → Request
        → Text
        → Bool
        → Option AutomationFingerprint
        → Option (Option ℕ)
        → ℕ
        → Guard c × AssessReply W
    assess g sessions rhythms m r ip has_pow fp none now = (g, thrown)
    assess g sessions rhythms m r ip has_pow fp (some shared) now =
        let session = has c sessions (session_id_of r) now in
        let a = evaluate_trust (signals_of rhythms m r ip session has_pow fp shared) now in
        (enforce g a ip now, assessed a)

    -- `/api/trust-assessment`
    unfoldable pub assess_route :
        {k : Crypto}
        → Guard c
        → c.Store ℕ
        → c.Store (Session k)
        → Bindings
        → Sessions W
        → Measured W
        → Request
        → Text
        → Bool
        → Option AutomationFingerprint
        → WalletField
        → ℕ
        → Guard c × c.Store ℕ × AssessReply W
    assess_route {k} g rates sessions wallets rhythms m r ip has_pow fp wallet now =
        let (rates', rl) = check_free_rate_limit c rates ip now in
        let (g', reply) =
          assess {k = k} g sessions rhythms m r ip has_pow fp (shared_wallets wallets wallet) now in
        if rl.allowed then (g', rates', reply) else (g, rates', rate_limited)

pub record AgentBody (W : Type 0) : Type 0 where
  pub credential : Option (AgentCredential W)
  pub signature : Option Text
  -- `alg === 'ml-dsa-65'`
  pub is_pq : Bool
  pub public_key : Option Text

pub data AgentReply (W : Type 0) : Type 0 where
  missing_fields : AgentReply W
  checked : CredentialCheck W → AgentDecision → AgentReply W

-- No list where the setting names no issuer.
abbrev pub issuers : List Text → Option (List Text)
issuers [] = none
issuers (t ∷ trusted) = some (t ∷ trusted)

module _ {W : Type 0} ⦃d : Double W⦄ where
  abbrev pub or_none_risk : Option W → W
  or_none_risk none = num 0
  or_none_risk (some risk) = risk

  -- `Math.max(checkConsistency(req) / 100, lastTlsRisk ?? 0)`
  unfoldable pub behavior_risk : Request → Option W → W
  behavior_risk r tls = max (num (check_consistency r) ⊘ num 100) (or_none_risk tls)

  abbrev decided : CredentialCheck W → W → AgentReply W
  decided check risk = checked check (agent_trust_decision check risk)

module _ {W : Type 0} ⦃d : Double W⦄ (g : Signatures) where
  -- With the credential and the signature there.
  unfoldable pub check_agent :
      AgentCredential W → Text → Bool → Option Text → List Text → W → ℕ → AgentReply W
  unfolding agent_trust_decision
  check_agent credential signature false key trusted risk now =
      decided (verify_agent_credential g credential signature (issuers trusted) now) risk
  check_agent credential signature true none trusted risk now = missing_fields
  check_agent credential signature true (some key) trusted risk now =
      decided (verify_ml_dsa_credential g credential signature key (issuers trusted) now) risk

  -- `/api/agent/verify`
  unfoldable pub agent_verify : AgentBody W → Request → List Text → Option W → ℕ → AgentReply W
  unfolding check_agent behavior_risk
  agent_verify body r trusted tls now = elim body.credential [
    | none ↦ missing_fields
    | some credential ↦ elim (given body.signature) [
      | none ↦ missing_fields
      | some signature ↦
          check_agent credential signature body.is_pq body.public_key trusted (behavior_risk r tls)
            now
    ]
  ]
