-- ===== src/Zk/Trace.antt =====
-- Any sequence of calls on the proof registry.
use x402_health_oracle.Prelude.{
  ℕ, ◌+◌, ◌≤◌, Bool, true, false, not, List, [], ◌∷◌, arith, Text, text_Eq, ◌===◌, if◌then◌else◌,
}
use x402_health_oracle.Prelude.Dict.{
  has, put, Distinct, get-put, get-remove, get-retain, put-Distinct, remove-Distinct,
  retain-Distinct,
}
use x402_health_oracle.Crypto.{Crypto}
use x402_health_oracle.Encoding.Hex.{Bytes}
use x402_health_oracle.Zk.{
  LayerResult, ZkProof, Issued, is_expired, generate_zk_proof, issue_proof, redeem_proof,
  clear_proofs,
}

pub data Call (c : Crypto) : Type 0 where
  issue : c.Secret → LayerResult → Text → Bytes → ℕ → ℕ → Call c
  redeem : c.Secret → ZkProof → ℕ → Call c
  clear : Call c

abbrev pub one_if : Bool → ℕ
one_if true = 1
one_if false = 0

module _ (c : Crypto) where
  unfoldable pub apply : Issued → Call c → Issued
  apply m (issue secret layers ip random now later) =
      (issue_proof c secret layers ip random now later m).0
  apply m (redeem secret proof now) = (redeem_proof c secret proof now m).0
  apply m clear = clear_proofs m

  -- The registry after the calls, the latest first.
  unfoldable pub run : List (Call c) → Issued
  unfolding apply
  run [] = []
  run (call ∷ earlier) = apply (run earlier) call

  -- How often a proof with the commitment was issued.
  unfoldable pub issues : Text → List (Call c) → ℕ
  issues k [] = 0
  issues k (issue secret layers ip random now later ∷ earlier) =
      one_if ((generate_zk_proof c secret layers ip random now).commitment === k) + issues k earlier
  issues k (redeem _ _ _ ∷ earlier) = issues k earlier
  issues k (clear ∷ earlier) = issues k earlier

  -- How often a redemption of the commitment was answered as valid.
  unfoldable pub redemptions : Text → List (Call c) → ℕ
  redemptions k [] = 0
  redemptions k (redeem secret proof now ∷ earlier) =
      (if proof.commitment === k
        then one_if (redeem_proof c secret proof now (run earlier)).1.valid
        else 0)
      + redemptions k earlier
  redemptions k (issue _ _ _ _ _ _ ∷ earlier) = redemptions k earlier
  redemptions k (clear ∷ earlier) = redemptions k earlier

  pub run-Distinct : (calls : List (Call c)) → Distinct (run calls)
  unfolding run issue_proof redeem_proof clear_proofs
  run-Distinct [] = tt
  run-Distinct (issue secret layers ip random now later ∷ calls) =
      let p = generate_zk_proof c secret layers ip random now in
      retain-Distinct (λ ts. not (is_expired later ts)) (put p.commitment p.ts (run calls))
        (put-Distinct p.commitment p.ts (run calls) (run-Distinct calls))
  run-Distinct (redeem secret proof now ∷ calls) =
      ground (arith, run-Distinct calls, remove-Distinct proof.commitment (run calls))
  run-Distinct (clear ∷ calls) = tt

  held-issue :
      (k : Text) (m : Issued) (secret : c.Secret) (layers : LayerResult) (ip : Text)
      (random : Bytes) (now later : ℕ)
      → Distinct m
      → one_if (has k (issue_proof c secret layers ip random now later m).0)
        ≤ one_if ((generate_zk_proof c secret layers ip random now).commitment === k)
          + one_if (has k m)
  unfolding issue_proof
  held-issue k m secret layers ip random now later d =
      let p = generate_zk_proof c secret layers ip random now in
      ground (
        arith,
        get-retain (λ ts. not (is_expired later ts)) k (put p.commitment p.ts m)
            (put-Distinct p.commitment p.ts m d),
        get-put p.commitment k p.ts m,
      )

  held-redeem :
      (k : Text) (m : Issued) (secret : c.Secret) (proof : ZkProof) (now : ℕ)
      → (if proof.commitment === k then one_if (redeem_proof c secret proof now m).1.valid else 0)
          + one_if (has k (redeem_proof c secret proof now m).0)
        ≤ one_if (has k m)
  unfolding redeem_proof
  held-redeem k m secret proof now =
      ground (arith, get-remove proof.commitment k m, text_Eq.eq_correct proof.commitment k)

  -- In every sequence of calls a commitment is redeemed as valid at most as often as it was issued;
  -- what is still held is counted with the redemptions.
  pub redemptions-le-issues :
      (k : Text) (calls : List (Call c))
      → redemptions k calls + one_if (has k (run calls)) ≤ issues k calls
  unfolding redemptions issues run clear_proofs
  redemptions-le-issues k [] = omega arith
  redemptions-le-issues k (issue secret layers ip random now later ∷ calls) = omega (
    arith,
    redemptions-le-issues k calls,
    held-issue k (run calls) secret layers ip random now later (run-Distinct calls),
  )
  redemptions-le-issues k (redeem secret proof now ∷ calls) =
      omega (arith, redemptions-le-issues k calls, held-redeem k (run calls) secret proof now)
  redemptions-le-issues k (clear ∷ calls) = omega (arith, redemptions-le-issues k calls)
