-- ===== src/Zk/Tests.antt =====
-- The registry of proofs on concrete calls.
use x402_health_oracle.Prelude.{
  ◌+◌, ◌≤◌, ◌≡◌, true, false, List, [], ◌∷◌, ◌==◌, arith, Text, codes, text_Eq,
}
use x402_health_oracle.Prelude.Dict.{has}
use x402_health_oracle.Crypto.{toy_crypto}
use x402_health_oracle.Zk.{
  LayerResult, ZkProof, Issued, proof_ttl_ms, commitment_matches, issue_proof, redeem_proof,
}
use x402_health_oracle.Zk.Layers.{layers_passed}
use x402_health_oracle.Zk.Redeem.{redeem_proof_sound, issue-redeem_proof}
use x402_health_oracle.Zk.Trace.{
  Call, issue, redeem, redemptions, issues, run, one_if, redemptions-le-issues,
}

abbrev seven_of_eight : LayerResult
seven_of_eight = record {
  l0_pqc = true;
  l1_gpu_ua = true;
  l2_frankenstein = true;
  l3_spearman = true;
  l4_variance = true;
  l5_argon2 = false;
  l6_entropy = true;
  l7_jitter = true;
}

abbrev some_address : Text
some_address = codes "10.0.0.1"

abbrev issued_call : Issued × ZkProof
issued_call = issue_proof toy_crypto 5 seven_of_eight some_address (1 ∷ 2 ∷ []) 1000 1001 []

redeem_proof_sound_example :
    let (issued', result, replay) = redeem_proof toy_crypto 5 issued_call.1 2000 issued_call.0 in
    (2000 ≤ issued_call.1.ts + proof_ttl_ms)
    × (has issued_call.1.commitment issued_call.0 ≡ true)
    × (has issued_call.1.commitment issued' ≡ false)
    × (commitment_matches toy_crypto 5 issued_call.1 ≡ true)
    × (replay ≡ false)
redeem_proof_sound_example =
    redeem_proof_sound toy_crypto 5 issued_call.1 2000 issued_call.0
      (issue-redeem_proof toy_crypto 5 seven_of_eight some_address (1 ∷ 2 ∷ []) 1000 1001 2000 2000
        [] tt (omega arith) (omega arith)).0

issue-redeem_proof_example :
    let (issued'', result, replay) = redeem_proof toy_crypto 5 issued_call.1 2000 issued_call.0 in
    let (_, again, replay') = redeem_proof toy_crypto 5 issued_call.1 3000 issued'' in
    (result.valid ≡ true)
    × (replay ≡ false)
    × (result.layer_count ≡ layers_passed seven_of_eight)
    × (result.all_layers_passed ≡ (layers_passed seven_of_eight == 8))
    × (again.valid ≡ false)
    × (replay' ≡ true)
issue-redeem_proof_example =
    issue-redeem_proof toy_crypto 5 seven_of_eight some_address (1 ∷ 2 ∷ []) 1000 1001 2000 3000 []
      tt (omega arith) (omega arith)

abbrev two_calls : List (Call toy_crypto)
two_calls =
    redeem 5 issued_call.1 2000 ∷ issue 5 seven_of_eight some_address (1 ∷ 2 ∷ []) 1000 1001 ∷ []

redemptions-le-issues_example :
    redemptions toy_crypto issued_call.1.commitment two_calls
      + one_if (has issued_call.1.commitment (run toy_crypto two_calls))
    ≤ issues toy_crypto issued_call.1.commitment two_calls
redemptions-le-issues_example = redemptions-le-issues toy_crypto issued_call.1.commitment two_calls
