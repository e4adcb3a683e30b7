-- ===== src/Identity/Decision.antt =====
-- `agentTrustDecision` of gateway/src/services/agentIdentity.ts.
use x402_health_oracle.Prelude.{ℕ, ◌≤◌, ◌≡◌, ◌≢◌, true, Option, none, some, arith, if◌then◌else◌}
use x402_health_oracle.Double.{Double, ◌⊑◌, ◌⊏◌, num}
use x402_health_oracle.Double.Laws.{◌≼◌, IsOrdered, lt_of_lt-le}
use x402_health_oracle.Identity.{CredentialCheck}

pub data AgentDecision : Type 0 where
  allow step_up deny : AgentDecision

abbrev pub strictness : AgentDecision → ℕ
strictness allow = 0
strictness step_up = 1
strictness deny = 2

module _ {ℓ} {W : Type ℓ} ⦃d : Double W⦄ where
  -- `check.reputation ?? 0`
  abbrev pub reputation_or_zero : Option W → W
  reputation_or_zero none = num 0
  reputation_or_zero (some r) = r

  unfoldable pub agent_trust_decision : CredentialCheck W → W → AgentDecision
  agent_trust_decision check risk =
      let rep = reputation_or_zero check.reputation in
      if check.valid
      then (if d.ratio 95 100 ⊑ risk
          then step_up
          else if num 6000 ⊑ rep
          then allow
          else if num 3000 ⊑ rep
          then (if d.ratio 7 10 ⊏ risk then step_up else allow)
          else if d.ratio 5 10 ⊏ risk
          then step_up
          else allow)
      else if d.ratio 8 10 ⊑ risk
      then deny
      else if d.ratio 5 10 ⊑ risk
      then step_up
      else allow

  module _ (laws : IsOrdered W) where
    open laws use {le_trans}

    -- A riskier behaviour never gets a milder decision, and a verified identity is never denied.
    pub agent_trust_decision_mono :
        (check : CredentialCheck W) (risk risk' : W)
        → risk ≼ risk'
        → (strictness (agent_trust_decision check risk)
            ≤ strictness (agent_trust_decision check risk'))
          × (check.valid ≡ true → agent_trust_decision check risk ≢ deny)
    unfolding agent_trust_decision
    agent_trust_decision_mono check risk risk' h = (
      ground (
        arith,
        le_trans (d.ratio 95 100) risk risk',
        le_trans (d.ratio 8 10) risk risk',
        le_trans (d.ratio 5 10) risk risk',
        lt_of_lt-le laws (d.ratio 7 10) risk risk',
        lt_of_lt-le laws (d.ratio 5 10) risk risk',
      ),
      λ v e. ground arith,
    )
