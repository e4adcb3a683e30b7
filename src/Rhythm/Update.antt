-- ===== src/Rhythm/Update.antt =====
-- How a packet moves the trust of its session: steps 2 to 5 of `validateRhythm`.
use x402_health_oracle.Prelude.{
  ℕ, ◌+◌, ◌-◌, ◌≤◌, ◌<◌, ◌≡◌, ◌⊎◌, inl, inr, ◌∙◌, ltb, Bool-cases, refl, sym, true, false, List, [],
  ◌∷◌, arith, length,
}
use x402_health_oracle.Double.{Double, ◌⊏◌, ◌⊕◌, ◌⊖◌, ◌⊗◌, ◌⊘◌, num, neg, abs, min, sum, sum_from}
use x402_health_oracle.Rhythm.Session.{
  RhythmState, trust_delta, update_trust, decay, avg_deviation, deviations, correct_drift,
  next_state,
}

module _ {ℓ} {W : Type ℓ} ⦃d : Double W⦄ where
  -- Trust falls at once to what the timings show, and rises by 0.02 and never above 1.
  abbrev pub IsMoved : W → W → W → Type ℓ
  IsMoved shown old moved =
      (((old ⊏ shown) ≡ true) × (moved ≡ min (num 1) (old ⊕ d.ratio 2 100)))
      ⊎ (((old ⊏ shown) ≡ false) × (moved ≡ shown))

  -- After more than 30 s of silence it loses 0.05 for each second of them.
  abbrev pub IsTrustAfter : W → W → ℕ → W → Type ℓ
  IsTrustAfter shown old silence trust =
      (moved : W) × IsMoved shown old moved
      × (((silence ≤ 30000) × (trust ≡ moved))
          ⊎ ((30000 < silence) × (trust ≡ moved ⊖ d.ratio 5 100 ⊗ (num silence ⊘ num 1000))))

  -- How far each timing is from its pulse, in parts of the pulse.
  abbrev pub relative_deviations : W → List ℕ → List W → List W
  relative_deviations drift (t ∷ ts) (r ∷ rs) =
      abs (r ⊖ num t ⊗ drift) ⊘ (num t ⊗ drift) ∷ relative_deviations drift ts rs
  relative_deviations drift _ _ = []

  -- What the timings show: the bell curve of the mean of the deviations, 0.15 wide.
  abbrev pub shown_by : RhythmState W → List W → W
  shown_by s received =
      let gaps = relative_deviations s.drift_compensation s.secret_sequence received in
      let avg = sum gaps ⊘ num (length gaps) in
      d.exp (neg avg ⊗ avg ⊘ (num 2 ⊗ d.ratio 15 100 ⊗ d.ratio 15 100))

  deviations_lem :
      (drift : W) (ts : List ℕ) (rs : List W) (total : W) (n : ℕ)
      → let gaps = relative_deviations drift ts rs in
        ((deviations drift ts rs (total, n)).0 ≡ sum_from total gaps)
        × ((deviations drift ts rs (total, n)).1 ≡ n + length gaps)
  unfolding deviations
  deviations_lem drift [] rs total n = (refl, omega arith)
  deviations_lem drift (t ∷ ts) [] total n = (refl, omega arith)
  deviations_lem drift (t ∷ ts) (r ∷ rs) total n =
      let (sums, counts) =
        deviations_lem drift ts rs (total ⊕ abs (r ⊖ num t ⊗ drift) ⊘ (num t ⊗ drift)) (n + 1) in
      (sums, counts ∙ omega arith)

  shown_by-trust_delta :
      (s : RhythmState W) (received : List W)
      → trust_delta (avg_deviation s received) ≡ shown_by s received
  unfolding trust_delta avg_deviation
  shown_by-trust_delta s received =
      let gaps = relative_deviations s.drift_compensation s.secret_sequence received in
      let (sums, counts) =
        deviations_lem s.drift_compensation s.secret_sequence received (num 0) 0 in
      let count : 0 + length gaps ≡ length gaps = omega arith in rw (sums, counts, count) refl

  update_trust-IsMoved : (shown old : W) → IsMoved shown old (update_trust shown old)
  unfolding update_trust
  update_trust-IsMoved shown old = ground arith

  decay_lem :
      (last now : ℕ) (moved : W)
      → ((now - last ≤ 30000) × (decay last now moved ≡ moved))
        ⊎ ((30000 < now - last)
            × (decay last now moved ≡ moved ⊖ d.ratio 5 100 ⊗ (num (now - last) ⊘ num 1000)))
  unfolding decay
  decay_lem last now moved = elim (Bool-cases (ltb (last + 30000) now)) [
    | inl late ↦ inr (ground arith, rw late refl)
    | inr soon ↦ inl (ground arith, rw soon refl)
  ]

  pub next_state-IsTrustAfter :
      (s : RhythmState W) (received : List W) (last now later : ℕ)
      → s.last_sync ≡ last
      → IsTrustAfter
          (shown_by s received)
          s.trust_score
          (now - last)
          (next_state s received now later).trust_score
  unfolding next_state
  next_state-IsTrustAfter s received last now later synced =
      let moved = update_trust (trust_delta (avg_deviation s received)) s.trust_score in
      (
        moved,
        rw (sym (shown_by-trust_delta s received))
            (update_trust-IsMoved (trust_delta (avg_deviation s received)) s.trust_score),
        rw (sym synced) (decay_lem s.last_sync now moved),
      )

  pub next_state_keeps :
      (s : RhythmState W) (received : List W) (now later : ℕ)
      → ((next_state s received now later).last_sync ≡ later)
        × ((next_state s received now later).secret_sequence ≡ s.secret_sequence)
  unfolding next_state
  next_state_keeps s received now later = (refl, refl)

  pub next_state_drift :
      (s : RhythmState W) (received : List W) (now later : ℕ)
      → let next = next_state s received now later in
        (next.drift_compensation ≡ s.drift_compensation)
        ⊎ ((d.ratio 8 10 ⊏ next.trust_score) ≡ true)
        ⊎ ((d.ratio 9 10 ⊏ next.trust_score) ≡ true)
  unfolding next_state correct_drift
  next_state_drift s received now later = ground arith
