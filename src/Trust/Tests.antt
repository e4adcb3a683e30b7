-- ===== src/Trust/Tests.antt =====
-- Assessments of concrete callers.
use x402_health_oracle.Prelude.{◌≡◌, ◌↔◌, ◌⊎◌, true, false, some, List, [], ◌∷◌, codes}
use x402_health_oracle.Prelude.Int.{pos}
use x402_health_oracle.Double.{num}
use x402_health_oracle.Double.Fixed.{Fixed, fixed_Double}
use x402_health_oracle.Trust.Engine.{TrustSignal, allow, deny, evaluate_trust, fuse_soft_signals}
use x402_health_oracle.Trust.Engine.HardFail.{HasFailed, IsDecision, evaluate_trust_hard}

abbrev a_signal : TrustSignal Fixed
a_signal = record {
  id = codes "rhythm";
  hard_fail = false;
  score = some (pos 800);
  weight = some (pos 2000);
  reasons = [];
}

abbrev a_gate : TrustSignal Fixed
a_gate = record a_signal { id = codes "pqc"; hard_fail = true; score = some (pos 0) }

abbrev signals : List (TrustSignal Fixed)
signals = a_signal ∷ a_gate ∷ []

evaluate_trust_hard_example :
    let r = evaluate_trust signals 5 in
    ((r.hard_failed ≡ true) ↔ HasFailed signals)
    × ((r.decision ≡ allow) ↔ (
        (HasFailed signals × (allow ≡ deny))
        ⊎ ((¬ HasFailed signals) × IsDecision allow r.fused_score)))
    × ((HasFailed signals × (r.fused_score ≡ num 0))
        ⊎ ((¬ HasFailed signals) × (r.fused_score ≡ fuse_soft_signals signals)))
evaluate_trust_hard_example = evaluate_trust_hard signals 5 allow
