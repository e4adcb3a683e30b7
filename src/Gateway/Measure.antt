-- ===== src/Gateway/Measure.antt =====
-- What gateway/server.ts measures: the metrics of a batch of the probe, and the routes of the rhythm;
-- both feed the noise of Noise. A field of a body that is no array is `none`; an element that is no number is one that
-- is not finite.
use x402_health_oracle.Prelude.{
  ℕ, ◌≡◌, true, Option, none, some, List, [], ◌∷◌, keep, Text, All, arith,
}
use x402_health_oracle.Crypto.{Crypto}
use x402_health_oracle.Double.{Double, ◌⊘◌, num}
use x402_health_oracle.Noise.{update_noise}
use x402_health_oracle.Jitter.Verdict.{JitterVerdict, jitter_stats, jitter_verdict}
use x402_health_oracle.Rhythm.Pulse.{sync_pulse}
use x402_health_oracle.Rhythm.Session.{
  Sessions, RhythmResult, start_session, validate_rhythm, get_drift_adjustment, get_trust_status,
}
use x402_health_oracle.Gateway.Cache.{Cache}
use x402_health_oracle.Gateway.Request.{Request, session_id_of}
use x402_health_oracle.Gateway.Enclave.{Session}
use x402_health_oracle.Gateway.Health.{Mode}

-- currentMetrics, as far as a batch measures them, with lastJitterVerdict and lastJitterCv.
pub record Metrics (W : Type 0) : Type 0 where
  pub mean : W
  pub variance : W
  pub entropy : W
  pub autocorr : W
  pub trust_score : W
  pub mode : Mode
  pub verdict : JitterVerdict
  pub cv : W

module _ {W : Type 0} ⦃d : Double W⦄ where
  -- `Number(x.toFixed(digits))`
  abbrev pub rounded : ℕ → W → W
  rounded digits x = d.parse (d.to_fixed digits x)

  -- The metrics of a batch that is not discarded; `client` is the address of the last web socket.
  unfoldable pub measure : List W → Sessions W → Text → Mode → Metrics W
  measure deltas rhythms client mode =
      let stats = jitter_stats deltas in
      record {
        mean = rounded 2 (stats.mean ⊘ num 1000);
        variance = rounded 4 (stats.variance ⊘ num 1000000);
        entropy = rounded 3 stats.entropy;
        autocorr = rounded 3 stats.autocorr;
        trust_score = rounded 2 (get_trust_status rhythms client);
        mode = mode;
        verdict = jitter_verdict stats;
        cv = rounded 4 stats.cv;
      }

  abbrev pub replaced_by : List W → List W → List W
  replaced_by latest [] = latest
  replaced_by latest (x ∷ salt) = update_noise latest (x ∷ salt)

  -- The finite numbers of the salt, if there are any.
  unfoldable pub take_salt : List W → Option (List W) → List W
  take_salt latest none = latest
  take_salt latest (some salt) = replaced_by latest (keep d.is_finite salt)

  -- `/api/verify-rhythm`
  unfoldable pub verify_rhythm_route :
      List W
      → Sessions W
      → Text
      → List W
      → Option (List W)
      → ℕ
      → ℕ
      → List W × Sessions W × RhythmResult W
  verify_rhythm_route latest rhythms ip timings salt now later =
      let (rhythms', result) = validate_rhythm rhythms ip timings now later in
      (take_salt latest salt, rhythms', result)

  module _ (c : Cache) {k : Crypto} where
    -- `/api/sync-pulse`; without a session it is refused.
    unfoldable pub sync_pulse_route :
        c.Store (Session k)
        → Sessions W
        → Request
        → Text
        → ℕ
        → c.Store (Session k) × Sessions W × Option (List ℕ × W)
    sync_pulse_route sessions rhythms r ip now =
        let used = c.touch sessions (session_id_of r) now in
        elim (c.get sessions (session_id_of r) now) [
          | none ↦ (used, rhythms, none)
          | some entry ↦
              let pulse = sync_pulse k ip entry.key in
              let rhythms' = start_session rhythms ip pulse now in
              (used, rhythms', some (pulse, get_drift_adjustment rhythms' ip))
        ]

  keep-finite : (xs : List W) → All (λ x. d.is_finite x ≡ true) (keep d.is_finite xs)
  keep-finite [] = tt
  keep-finite (x ∷ xs) = ground (arith, keep-finite xs)

  -- The noise stays finite: whatever salt a client sends, the noise that is there afterwards has only
  -- finite numbers, if the one before it had.
  pub take_salt-finite :
      (latest : List W) (salt : Option (List W))
      → All (λ x. d.is_finite x ≡ true) latest
      → All (λ x. d.is_finite x ≡ true) (take_salt latest salt)
  unfolding take_salt
  take_salt-finite latest none h = h
  take_salt-finite latest (some salt) h =
      elim (keep d.is_finite salt)
          as (λ xs.
            All (λ x. d.is_finite x ≡ true) xs
            → All (λ x. d.is_finite x ≡ true) (replaced_by latest xs)) [
              | [] ↦ λ _. h
              | x ∷ xs ↦ λ all. all
            ]
        (keep-finite salt)
