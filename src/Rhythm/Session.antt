-- ===== src/Rhythm/Session.antt =====
-- The sessions of gateway/src/services/rhythmManager.ts and `validateRhythm`.
use x402_health_oracle.Prelude.{
  ℕ, ◌+◌, ◌-◌, Bool, true, false, ◌&&◌, none, some, List, [], ◌∷◌, ltb, if◌then◌else◌, Text,
  text_Eq, length, drop,
}
use x402_health_oracle.Prelude.Dict.{Dict, get, put, remove}
use x402_health_oracle.Double.{
  Double, ◌⊕◌, ◌⊖◌, ◌⊗◌, ◌⊘◌, ◌⊑◌, ◌⊏◌, ◌≐◌, num, neg, abs, min, max, is_nan,
}

pub record RhythmState {ℓ} (W : Type ℓ) : Type ℓ where
  pub session_id : Text
  pub secret_sequence : List ℕ
  pub client_noise_profile : List W
  pub trust_score : W
  pub last_sync : ℕ
  pub drift_compensation : W

pub record RhythmResult {ℓ} (W : Type ℓ) : Type ℓ where
  pub valid : Bool
  pub trust_score : W
  pub requires_interrogation : Bool

abbrev pub Sessions {ℓ} : Type ℓ → Type ℓ
Sessions W = Dict Text (RhythmState W)

module _ {ℓ} {W : Type ℓ} ⦃d : Double W⦄ where
  unfoldable pub start_session : Sessions W → Text → List ℕ → ℕ → Sessions W
  start_session m session_id pulse now =
      put session_id
        (record {
          session_id = session_id;
          secret_sequence = pulse;
          client_noise_profile = [];
          trust_score = num 1;
          last_sync = now;
          drift_compensation = num 1;
        })
        m

  abbrev pub drift_window : W
  drift_window = d.ratio 15 100

  -- The sum of the relative deviations over the shorter of the two lists, and its length.
  unfoldable pub deviations : W → List ℕ → List W → W × ℕ → W × ℕ
  deviations drift (t ∷ ts) (r ∷ rs) (total, n) =
      let expected = num t ⊗ drift in
      deviations drift ts rs (total ⊕ abs (r ⊖ expected) ⊘ expected, n + 1)
  deviations drift _ _ found = found

  unfoldable pub avg_deviation : RhythmState W → List W → W
  unfolding deviations
  avg_deviation state received =
      let (total, n) =
        deviations state.drift_compensation state.secret_sequence received (num 0, 0) in
      total ⊘ num n

  unfoldable pub trust_delta : W → W
  trust_delta avg = d.exp (neg avg ⊗ avg ⊘ (num 2 ⊗ drift_window ⊗ drift_window))

  -- Steps 3 and 4: slow up, at once down, and the decay after 30 s of silence.
  unfoldable pub update_trust : W → W → W
  update_trust delta trust = if trust ⊏ delta then min (num 1) (trust ⊕ d.ratio 2 100) else delta

  unfoldable pub decay : ℕ → ℕ → W → W
  decay last_sync now trust =
      if ltb (last_sync + 30000) now
      then trust ⊖ d.ratio 5 100 ⊗ (num (now - last_sync) ⊘ num 1000)
      else trust

  -- `profile.length > 100 ? profile.slice(-50) : profile`
  unfoldable pub trim_profile : List W → List W
  trim_profile profile =
      if ltb 100 (length profile) then drop (length profile - 50) profile else profile

  unfoldable pub correct_drift : W → W → W → W
  correct_drift trust avg drift =
      if (d.ratio 8 10 ⊏ trust) && (d.ratio 5 100 ⊏ avg)
      then min (num 2) (drift ⊗ (num 1 ⊕ avg ⊗ d.ratio 1 10))
      else if (d.ratio 9 10 ⊏ trust) && (avg ⊏ d.ratio 2 100)
      then max (num 1) (drift ⊗ d.ratio 995 1000)
      else drift

  -- `now` is the time of the decay, `later` the new time of the last sync.
  unfoldable pub next_state : RhythmState W → List W → ℕ → ℕ → RhythmState W
  next_state state received now later =
      let avg = avg_deviation state received in
      let trust = decay state.last_sync now (update_trust (trust_delta avg) state.trust_score) in
      record state {
        trust_score = trust;
        last_sync = later;
        client_noise_profile = trim_profile state.client_noise_profile;
        drift_compensation = correct_drift trust avg state.drift_compensation;
      }

  abbrev pub trust_floor : W
  trust_floor = d.ratio 3 10

  unfoldable pub decide : W → RhythmResult W
  decide trust = record {
    valid = trust_floor ⊑ trust;
    trust_score = trust;
    requires_interrogation = (trust ⊏ d.ratio 7 10) && (trust_floor ⊑ trust);
  }

  unfoldable pub validate_rhythm : Sessions W → Text → List W → ℕ → ℕ → Sessions W × RhythmResult W
  unfolding decide
  validate_rhythm m session_id received now later = elim (get session_id m) [
    | none ↦ (m, record { valid = false; trust_score = num 0; requires_interrogation = true })
    | some state ↦
        let next = next_state state received now later in
        (
          if next.trust_score ⊏ trust_floor then remove session_id m else put session_id next m,
          decide next.trust_score,
        )
  ]

  -- `x || fallback`: zero and NaN are replaced.
  abbrev pub or_else : W → W → W
  or_else x fallback = if x ≐ num 0 then fallback else if is_nan x then fallback else x

  unfoldable pub get_drift_adjustment : Sessions W → Text → W
  get_drift_adjustment m session_id = elim (get session_id m) [
    | none ↦ num 1
    | some state ↦ or_else state.drift_compensation (num 1)
  ]

  unfoldable pub get_trust_status : Sessions W → Text → W
  get_trust_status m session_id = elim (get session_id m) [
    | none ↦ num 0
    | some state ↦ or_else state.trust_score (num 0)
  ]
