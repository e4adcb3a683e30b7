-- ===== src/Trust/Engine/HardFail.antt =====
-- Hard gates: one failing is enough.
use x402_health_oracle.Prelude.{
  ℕ, ◌≡◌, refl, ◌↔◌, ◌∙◌, sym, ◌⊎◌, Bool, true, false, none, some, List, [], ◌∷◌, ◌++◌, arith, any,
  find_first, inl, inr, ◌||◌, Bool-cases,
}
use x402_health_oracle.Double.{Double, num}
use x402_health_oracle.Double.Laws.{◌≼◌}
use x402_health_oracle.Trust.Engine.{
  TrustSignal, TrustDecision, allow, step_up, shadow_limit, deny, has_failed_hard, evaluate_trust,
  fuse_soft_signals, band_for,
}

module _ {ℓ} {W : Type ℓ} ⦃d : Double W⦄ where
  find_first-any :
      (p : TrustSignal W → Bool) (l : List (TrustSignal W))
      → (any p l ≡ true → (s : TrustSignal W) × (find_first p l ≡ some s) × (p s ≡ true))
        × (any p l ≡ false → find_first p l ≡ none)
  find_first-any p [] = (λ h. cc, λ h. refl)
  find_first-any p (x ∷ l) = elim (Bool-cases (p x)) [
    | inl found ↦ (λ h. (x, ground arith, found), ground arith)
    | inr other ↦
        let (hit, miss) = find_first-any p l in
        (
          λ h. let (s, e, ps) = hit (ground arith) in (s, ground arith, ps),
          λ h. ground (arith, miss),
        )
  ]

  any-append :
      (p : TrustSignal W → Bool) (k l : List (TrustSignal W))
      → any p (k ++ l) ≡ (any p k || any p l)
  any-append p [] l = refl
  any-append p (x ∷ k) l = ground (arith, any-append p k l)

  -- What the evaluation takes from the search for a failed hard signal.
  evaluate_trust_cases :
      (signals : List (TrustSignal W)) (now : ℕ)
      → let r = evaluate_trust signals now in
        ((r.hard_failed ≡ any has_failed_hard signals))
        × (any has_failed_hard signals ≡ true → (r.decision ≡ deny) × (r.fused_score ≡ num 0))
        × (any has_failed_hard signals ≡ false
            → (r.decision ≡ band_for r.fused_score) × (r.fused_score ≡ fuse_soft_signals signals))
  unfolding evaluate_trust
  evaluate_trust_cases signals now =
      let (hit, miss) = find_first-any has_failed_hard signals in
      elim (Bool-cases (any has_failed_hard signals)) [
        | inl failed ↦ let (s, found, bad) = hit failed in rw (found, evaluate_trust) (ground arith)
        | inr passed ↦ rw (miss passed, evaluate_trust) (ground arith)
      ]

  -- One failed hard signal denies, wherever it stands and whatever the other signals say.
  pub evaluate_trust-deny :
      (before after : List (TrustSignal W)) (s : TrustSignal W) (now : ℕ)
      → has_failed_hard s ≡ true
      → (evaluate_trust (before ++ s ∷ after) now).decision ≡ deny
  evaluate_trust-deny before after s now h =
      let failed : any has_failed_hard (before ++ s ∷ after) ≡ true =
        ground (arith, any-append has_failed_hard before (s ∷ after)) in
      ((evaluate_trust_cases (before ++ s ∷ after) now).1 failed).0

  -- Some signal of the list is a hard gate with a score of at most 0.
  abbrev pub HasFailed : List (TrustSignal W) → Type 0
  HasFailed [] = ⊥
  HasFailed (s ∷ signals) = ((s.hard_fail ≡ true) × (s.score ≼ num 0)) ⊎ HasFailed signals

  HasFailed-iff :
      (signals : List (TrustSignal W)) → (any has_failed_hard signals ≡ true) ↔ HasFailed signals
  HasFailed-iff [] = ground arith
  HasFailed-iff (s ∷ signals) = ground (arith, HasFailed-iff signals)

  -- A score that is no number is in no band, and is denied.
  band_for_iff :
      (x : W)
      → ((band_for x ≡ allow) ↔ (d.ratio 7 10 ≼ x))
        × ((band_for x ≡ step_up) ↔ ((¬ (d.ratio 7 10 ≼ x)) × (d.ratio 4 10 ≼ x)))
        × ((band_for x ≡ shadow_limit)
            ↔ ((¬ (d.ratio 7 10 ≼ x)) × (¬ (d.ratio 4 10 ≼ x)) × (d.ratio 2 10 ≼ x)))
        × ((band_for x ≡ deny)
            ↔ ((¬ (d.ratio 7 10 ≼ x)) × (¬ (d.ratio 4 10 ≼ x)) × (¬ (d.ratio 2 10 ≼ x))))
  unfolding band_for
  band_for_iff x = (ground arith, ground arith, ground arith, ground arith)

  -- The decision on a fused score.
  abbrev pub IsDecision : TrustDecision → W → Type 0
  IsDecision allow x = d.ratio 7 10 ≼ x
  IsDecision step_up x = (¬ (d.ratio 7 10 ≼ x)) × (d.ratio 4 10 ≼ x)
  IsDecision shadow_limit x = (¬ (d.ratio 7 10 ≼ x)) × (¬ (d.ratio 4 10 ≼ x)) × (d.ratio 2 10 ≼ x)
  IsDecision deny x = (¬ (d.ratio 7 10 ≼ x)) × (¬ (d.ratio 4 10 ≼ x)) × (¬ (d.ratio 2 10 ≼ x))

  band_for-IsDecision : (x : W) (t : TrustDecision) → (band_for x ≡ t) ↔ IsDecision t x
  band_for-IsDecision x allow = (band_for_iff x).0
  band_for-IsDecision x step_up = (band_for_iff x).1
  band_for-IsDecision x shadow_limit = (band_for_iff x).2
  band_for-IsDecision x deny = (band_for_iff x).3

  -- An assessment reports a hard failure exactly if some signal is a hard gate with a score of
  -- at most 0. It then denies, with a score of 0; otherwise its score is that of the soft
  -- signals, and it allows exactly from a fused score of 0.7 on, steps up from 0.4 on, limits
  -- from 0.2 on, and denies below that or if the score is no number.
  pub evaluate_trust_hard :
      (signals : List (TrustSignal W)) (now : ℕ) (t : TrustDecision)
      → let r = evaluate_trust signals now in
        ((r.hard_failed ≡ true) ↔ HasFailed signals)
        × ((r.decision ≡ t) ↔ (
            (HasFailed signals × (t ≡ deny))
            ⊎ ((¬ HasFailed signals) × IsDecision t r.fused_score)))
        × ((HasFailed signals × (r.fused_score ≡ num 0))
            ⊎ ((¬ HasFailed signals) × (r.fused_score ≡ fuse_soft_signals signals)))
  evaluate_trust_hard signals now t =
      let r = evaluate_trust signals now in
      let (failed, hard, soft) = evaluate_trust_cases signals now in
      let gate = HasFailed-iff signals in
      let band = band_for-IsDecision r.fused_score t in
      elim (Bool-cases (any has_failed_hard signals)) [
        | inl bad ↦
            let (denied, zero) = hard bad in
            let there = gate.0 bad in
            (
              (λ h. there, λ h. failed ∙ bad),
              (
                λ h. inl (there, sym h ∙ denied),
                λ h. elim h [ inl (k, e) ↦ denied ∙ sym e | inr (k, e) ↦ absurd (k there) ],
              ),
              inl (there, zero),
            )
        | inr good ↦
            let (decided, fused) = soft good in
            let none_there : ¬ HasFailed signals = λ k. cc (gate.1 k) in
            (
              (λ h. cc, λ h. absurd (none_there h)),
              (
                λ h. inr (none_there, band.0 (sym decided ∙ h)),
                λ h. elim h [
                  | inl (k, e) ↦ absurd (none_there k)
                  | inr (k, e) ↦ decided ∙ band.1 e
                ],
              ),
              inr (none_there, fused),
            )
      ]
