-- ===== src/Rhythm/Trust.antt =====
-- What `validateRhythm` decides and keeps.
use x402_health_oracle.Prelude.{
  ℕ, ◌+◌, ◌≤◌, ◌≡◌, ◌≢◌, ◌↔◌, refl, ◌-◌, true, false, none, some, List, [], ◌∷◌, arith, Text,
  text_Eq, if◌then◌else◌, ◌⊎◌, Option-cases, inl, inr,
}
use x402_health_oracle.Prelude.Dict.{
  get, put, remove, get-put, get-put_self, get-remove, get-remove_self,
}
use x402_health_oracle.Double.{Double, ◌⊏◌, ◌⊘◌, num}
use x402_health_oracle.Double.Laws.{◌≼◌, IsNumber, IsOrdered}
use x402_health_oracle.Rhythm.Update.{
  IsTrustAfter, shown_by, next_state-IsTrustAfter, next_state_keeps, next_state_drift,
}
use x402_health_oracle.Rhythm.Session.{
  RhythmState, RhythmResult, Sessions, trust_delta, update_trust, decay, avg_deviation, deviations,
  next_state, trust_floor, decide, validate_rhythm,
}

module _ {ℓ} {W : Type ℓ} ⦃d : Double W⦄ where
  validate_rhythm_others :
      (m : Sessions W) (id : Text) (received : List W) (now later : ℕ) (j : Text)
      → id ≢ j
      → get j (validate_rhythm m id received now later).0 ≡ get j m
  unfolding validate_rhythm
  validate_rhythm_others m id received now later j ne = elim (Option-cases (get id m)) [
    | inl unknown ↦ rw (unknown, validate_rhythm)
    | inr (s, known) ↦
        let next = next_state s received now later in
        rw (known, validate_rhythm)
          (ground (arith, get-put id j next m, get-remove id j m, text_Eq.eq_correct id j))
  ]

  validate_rhythm_known :
      (m : Sessions W) (id : Text) (s : RhythmState W) (received : List W) (now later : ℕ)
      → get id m ≡ some s
      → let next = next_state s received now later in
        validate_rhythm m id received now later ≡ (
          if next.trust_score ⊏ trust_floor then remove id m else put id next m,
          decide next.trust_score,
        )
  unfolding validate_rhythm
  validate_rhythm_known m id s received now later e = rw (e, validate_rhythm) refl

  -- The answer to a session that is not there.
  abbrev pub refusal : RhythmResult W
  refusal = record { valid = false; trust_score = num 0; requires_interrogation = true }

  validate_rhythm_unknown :
      (m : Sessions W) (id : Text) (received : List W) (now later : ℕ)
      → get id m ≡ none
      → validate_rhythm m id received now later ≡ (m, refusal)
  unfolding validate_rhythm
  validate_rhythm_unknown m id received now later e = rw (e, validate_rhythm) refl

  -- Valid from a trust of 0.3 on, with an interrogation below 0.7.
  abbrev pub IsVerdict : RhythmResult W → Type 0
  IsVerdict r =
      ((r.valid ≡ true) ↔ (d.ratio 3 10 ≼ r.trust_score))
      × ((r.requires_interrogation ≡ true)
          ↔ ((r.valid ≡ true) × ((r.trust_score ⊏ d.ratio 7 10) ≡ true)))

  decide-IsVerdict : (trust : W) → IsVerdict (decide trust)
  unfolding decide
  decide-IsVerdict trust = ground arith

  after_verdict :
      (laws : IsOrdered W) (m : Sessions W) (id : Text) (next : RhythmState W)
      → IsNumber next.trust_score
      → let m' = if next.trust_score ⊏ trust_floor then remove id m else put id next m in
        (((decide next.trust_score).valid ≡ false) × (get id m' ≡ none))
        ⊎ (((decide next.trust_score).valid ≡ true) × (get id m' ≡ some next))
  unfolding decide
  after_verdict laws m id next n = ground (
    arith,
    laws.lt-eq-not-le next.trust_score trust_floor n
        (laws.number_of_le _ _ (laws.ratio_mono 3 3 10 (omega arith) (omega arith))).0,
    get-put_self id next m,
    get-remove_self id m,
  )

  -- What a packet and the next one of its session are answered.
  abbrev pub FollowsUp :
      RhythmState W
      → Sessions W
      → RhythmResult W
      → Text
      → List W
      → ℕ
      → Sessions W
      → RhythmResult W
      → Type ℓ
  FollowsUp s m' r id received' silence m'' r' =
      ((r.valid ≡ false) × (m'' ≡ m') × (r' ≡ refusal))
      ⊎ ((r.valid ≡ true)
          × IsVerdict r'
          × ((s' : RhythmState W) × (get id m' ≡ some s')
              × (s'.secret_sequence ≡ s.secret_sequence)
              × ((s'.drift_compensation ≡ s.drift_compensation)
                  ⊎ ((d.ratio 8 10 ⊏ r.trust_score) ≡ true)
                  ⊎ ((d.ratio 9 10 ⊏ r.trust_score) ≡ true))
              × IsTrustAfter (shown_by s' received') r.trust_score silence r'.trust_score))

  follows_up :
      (laws : IsOrdered W) (m : Sessions W) (id : Text) (s : RhythmState W)
      (received received' : List W) (now later now' later' : ℕ)
      → get id m ≡ some s
      → IsNumber (next_state s received now later).trust_score
      → let next = next_state s received now later in
        let m' = if next.trust_score ⊏ trust_floor then remove id m else put id next m in
        let (m'', r') = validate_rhythm m' id received' now' later' in
        FollowsUp s m' (decide next.trust_score) id received' (now' - later) m'' r'
  unfolding decide
  follows_up laws m id s received received' now later now' later' e n =
      let next = next_state s received now later in
      let m' = if next.trust_score ⊏ trust_floor then remove id m else put id next m in
      elim (after_verdict laws m id next n) [
        | inl (refused, gone) ↦
            rw (validate_rhythm_unknown m' id received' now' later' gone)
              (inl (refused, refl, refl))
        | inr (valid, found) ↦ rw (validate_rhythm_known m' id next received' now' later' found) (
            inr (
              valid,
              decide-IsVerdict (next_state next received' now' later').trust_score,
              (
                next,
                found,
                (next_state_keeps s received now later).1,
                next_state_drift s received now later,
                next_state-IsTrustAfter next received' later now' later'
                    (next_state_keeps s received now later).0,
              ),
            ))
      ]

  -- A packet of a known session whose new trust is a number is valid exactly from a trust of
  -- 0.3 on, and asks for an interrogation exactly if it is valid and below 0.7. Its trust is
  -- what its timings show, if the trust before was not less, and otherwise 0.02 more than
  -- before and at most 1; after more than 30 s of silence it loses 0.05 for each second of
  -- them. What the timings show is the bell curve, 0.15 wide, of the mean of their relative
  -- deviations from the pulse of the session. After a packet that is not valid, the next one of
  -- the session changes nothing and is refused with trust 0 and an interrogation. After a valid
  -- one, the session has the same pulse, and the same drift unless its trust is above 0.8 or
  -- 0.9, and the next packet gets its verdict and its trust in the same way. The two packets
  -- change no other session. It takes the laws of order.
  pub validate_rhythm_lem :
      (laws : IsOrdered W) (m : Sessions W) (id j : Text) (s : RhythmState W)
      (received received' : List W) (now later now' later' : ℕ)
      → id ≢ j
      → get id m ≡ some s
      → IsNumber (validate_rhythm m id received now later).1.trust_score
      → let (m', r) = validate_rhythm m id received now later in
        let (m'', r') = validate_rhythm m' id received' now' later' in
        IsVerdict r
        × IsTrustAfter (shown_by s received) s.trust_score (now - s.last_sync) r.trust_score
        × FollowsUp s m' r id received' (now' - later) m'' r'
        × (get j m'' ≡ get j m)
  unfolding decide
  validate_rhythm_lem laws m id j s received received' now later now' later' ne e n =
      let known = validate_rhythm_known m id s received now later e in
      let others = validate_rhythm_others m id received now later j ne in
      let m' = (validate_rhythm m id received now later).0 in
      (
        rw known (decide-IsVerdict (next_state s received now later).trust_score),
        rw known (next_state-IsTrustAfter s received s.last_sync now later refl),
        rw known
            (follows_up laws m id s received received' now later now' later' e (rw known at n)),
        cc (others, validate_rhythm_others m' id received' now' later' j ne),
      )

  deviations-nil : (drift : W) (ts : List ℕ) (found : W × ℕ) → deviations drift ts [] found ≡ found
  unfolding deviations
  deviations-nil drift [] found = refl
  deviations-nil drift (t ∷ ts) found = refl

  next_empty :
      (laws : IsOrdered W) (s : RhythmState W) (now later : ℕ)
      → ¬ IsNumber {W = W} (trust_delta (num 0 ⊘ num 0))
      → now ≤ s.last_sync + 30000
      → ((next_state s [] now later).trust_score ≡ trust_delta (num 0 ⊘ num 0))
        × ((next_state s [] now later).last_sync ≡ later)
  unfolding next_state avg_deviation update_trust decay
  next_empty laws s now later nan h = ground (
    arith,
    deviations-nil s.drift_compensation s.secret_sequence (num 0, 0),
    laws.number_of_lt s.trust_score (trust_delta (num 0 ⊘ num 0)),
  )

  next_after_nan :
      (laws : IsOrdered W) (s : RhythmState W) (received : List W) (now later : ℕ)
      → ¬ IsNumber {W = W} s.trust_score
      → now ≤ s.last_sync + 30000
      → (next_state s received now later).trust_score ≡ trust_delta (avg_deviation s received)
  unfolding next_state update_trust decay
  next_after_nan laws s received now later nan h =
      ground (arith, laws.number_of_lt s.trust_score (trust_delta (avg_deviation s received)))

  -- A packet with no timings has no average: 0 / 0. Sent within 30 s of the last one it leaves a
  -- session with a trust that is no number, which the floor of 0.3 does not remove; and the next
  -- packet, within 30 s, then gets the trust of its own timings at once, however low the trust was
  -- before and without the slow recovery of 0.02 for each packet.
  pub validate_rhythm_empty :
      (laws : IsOrdered W) (m : Sessions W) (id : Text) (s : RhythmState W) (received : List W)
      (now later now' later' : ℕ)
      → ¬ IsNumber {W = W} (trust_delta (num 0 ⊘ num 0))
      → get id m ≡ some s
      → now ≤ s.last_sync + 30000
      → now' ≤ later + 30000
      → let (m', r) = validate_rhythm m id [] now later in
        let (_, r') = validate_rhythm m' id received now' later' in
        (r.valid ≡ false)
        × (r'.trust_score ≡ trust_delta (avg_deviation (next_state s [] now later) received))
  unfolding validate_rhythm decide
  validate_rhythm_empty laws m id s received now later now' later' nan e h h' =
      let next = next_state s [] now later in
      let delta : W = trust_delta (num 0 ⊘ num 0) in
      let first = next_empty laws s now later nan h in
      let second = next_after_nan laws next received now' later' (rw first.0 nan) (rw first.1 h') in
      ground (
        arith,
        first,
        second,
        laws.number_of_lt delta trust_floor,
        laws.number_of_le trust_floor delta,
        get-put_self id next m,
      )
