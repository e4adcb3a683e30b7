-- ===== src/Trust/Verdicts.antt =====
-- The signals that `/api/trust-assessment` of gateway/server.ts assembles, and what they decide.
use x402_health_oracle.Prelude.{
  ℕ, ◌≤◌, ◌≡◌, ◌⊎◌, inl, inr, Bool, true, false, Option, none, some, List, [], ◌∷◌, arith, Text,
}
use x402_health_oracle.Double.{Double, num}
use x402_health_oracle.Double.Laws.{IsOrdered}
use x402_health_oracle.Classifier.{AgentClass}
use x402_health_oracle.Trust.Engine.{TrustSignal, deny, evaluate_trust}
use x402_health_oracle.Trust.Engine.HardFail.{evaluate_trust-deny}
use x402_health_oracle.Trust.Signals.{
  pqc_session_signal, automation_signal, frankenstein_signal, rhythm_trust_signal,
  classifier_signal, wallet_sybil_signal,
}

module _ {ℓ} {W : Type ℓ} ⦃d : Double W⦄ where
  -- `shared` is the size of the wallet's group, where a bound wallet was named.
  abbrev pub sybil_part : Option ℕ → List (TrustSignal W)
  sybil_part none = []
  sybil_part (some shared) = wallet_sybil_signal shared 3 ∷ []

  unfoldable pub assessment_signals :
      Bool → Bool → List Text → ℕ → W → AgentClass → W → Option ℕ → List (TrustSignal W)
  assessment_signals session detected reasons frankenstein trust agent_class confidence shared =
      pqc_session_signal session
      ∷ automation_signal detected reasons
      ∷ frankenstein_signal frankenstein
      ∷ rhythm_trust_signal trust
      ∷ classifier_signal agent_class confidence
      ∷ sybil_part shared

  -- A caller with no post-quantum session, with an automation artifact, or with at least 100
  -- Frankenstein points is denied, whatever its rhythm, class, confidence and wallet say.
  pub assessment-deny :
      (laws : IsOrdered W) (session detected : Bool) (reasons : List Text) (frankenstein : ℕ)
      (trust : W) (agent_class : AgentClass) (confidence : W) (shared : Option ℕ) (now : ℕ)
      → (session ≡ false) ⊎ ((detected ≡ true) ⊎ (100 ≤ frankenstein))
      → (evaluate_trust
          (assessment_signals session detected reasons frankenstein trust agent_class confidence
            shared)
          now).decision
        ≡ deny
  unfolding assessment_signals pqc_session_signal automation_signal frankenstein_signal
  assessment-deny laws session detected reasons frankenstein trust agent_class confidence shared now
        h =
      let zero : d.le (num 0) (num 0) ≡ true = laws.ratio_mono 0 0 1 (omega arith) (omega arith) in
      let rest =
        rhythm_trust_signal trust ∷ classifier_signal agent_class confidence ∷ sybil_part shared in
      let f = frankenstein_signal frankenstein in
      let a = automation_signal detected reasons in
      let p = pqc_session_signal session in
      elim h [
        | inl no_session ↦ evaluate_trust-deny [] (a ∷ f ∷ rest) p now (ground arith)
        | inr (inl automated) ↦ evaluate_trust-deny (p ∷ []) (f ∷ rest) a now (ground arith)
        | inr (inr puppet) ↦ evaluate_trust-deny (p ∷ a ∷ []) rest f now (ground arith)
      ]
