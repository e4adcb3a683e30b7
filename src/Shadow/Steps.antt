-- ===== src/Shadow/Steps.antt =====
-- The shadow filter as a transition system: requests, callbacks in any order, and resets.
use x402_health_oracle.Prelude.{ℕ, [], String, Text}
use x402_health_oracle.Double.{Double}
use x402_health_oracle.Classifier.{ClassificationInput}
use x402_health_oracle.Shadow.{ShadowState, handle, run_callback, clear_shadow_records}

pub data Step {ℓ} (W : Type ℓ) ⦃d : Double W⦄ : ShadowState → ShadowState → Type ℓ where
  request :
      (s : ShadowState) (path : Text) (ip : String) (now : ℕ) → Step W s (handle s path ip now).0
  callback :
      (s : ShadowState) (k : ℕ) (input : ClassificationInput W) → Step W s (run_callback s k input)
  clear : (s : ShadowState) → Step W s (clear_shadow_records s)

abbrev pub start : ShadowState
start = record { heap = []; records = []; pending = [] }

pub data Reach {ℓ} (W : Type ℓ) ⦃d : Double W⦄ : ShadowState → Type ℓ where
  here : Reach W start
  after : {s t : ShadowState} → Reach W s → Step W s t → Reach W t
