-- ===== src/Zk/Redeem.antt =====
-- Issue and redemption of a proof.
use x402_health_oracle.Prelude.{
  ℕ, ◌+◌, ◌≤◌, ◌≡◌, true, false, not, arith, Text, text_Eq, text_eq_refl, ◌==◌, some,
}
use x402_health_oracle.Prelude.Int.{sub_ℕ}
use x402_health_oracle.Prelude.Dict.{
  get, has, put, Distinct, get-put_self, get-remove_self, get-retain, put-Distinct,
}
use x402_health_oracle.Crypto.{Crypto}
use x402_health_oracle.Encoding.Hex.{Bytes, to_hex, from_hex}
use x402_health_oracle.Zk.{
  LayerResult, ZkProof, Issued, proof_ttl_ms, is_expired, count_bits, build_payload,
  generate_zk_proof, commitment_matches, verify_zk_proof, issue_proof, redeem_proof,
}
use x402_health_oracle.Zk.Layers.{layers_passed, layers_to_int_lem}

module _ (c : Crypto) where
  open c use {Secret, hmac_sha256, hmac_sha256-IsByte}

  generated_matches :
      (secret : Secret) (layers : LayerResult) (ip : Text) (random : Bytes) (now : ℕ)
      → commitment_matches c secret (generate_zk_proof c secret layers ip random now) ≡ true
  unfolding generate_zk_proof
  generated_matches secret layers ip random now =
      let p = generate_zk_proof c secret layers ip random now in
      text_eq_refl (
        from_hex
          (to_hex (hmac_sha256 secret (build_payload p.layers_bitmap p.salt p.ts p.ip_hash))))

  verify_fresh :
      (secret : Secret) (proof : ZkProof) (t : ℕ)
      → t ≤ proof.ts + proof_ttl_ms
      → commitment_matches c secret proof ≡ true
      → verify_zk_proof c secret proof t ≡ record {
        valid = true;
        all_layers_passed = proof.layers_bitmap == 0xff;
        layer_count = count_bits proof.layers_bitmap;
        age_ms = sub_ℕ t proof.ts;
      }
  unfolding verify_zk_proof
  verify_fresh secret proof t h m =
      let on_time : is_expired t proof.ts ≡ false = ground arith in rw (on_time, m)

  -- A redeemed proof is valid only within its five minutes and only if it was issued and not yet
  -- redeemed; it is gone afterwards.
  pub redeem_proof_sound :
      (secret : Secret) (proof : ZkProof) (now : ℕ) (issued : Issued)
      → let (issued', result, replay) = redeem_proof c secret proof now issued in
        result.valid ≡ true
        → (now ≤ proof.ts + proof_ttl_ms)
          × (has proof.commitment issued ≡ true)
          × (has proof.commitment issued' ≡ false)
          × (commitment_matches c secret proof ≡ true)
          × (replay ≡ false)
  unfolding redeem_proof verify_zk_proof
  redeem_proof_sound secret proof now issued v =
      ground (arith, get-remove_self proof.commitment issued)

  issued_has :
      (secret : Secret) (layers : LayerResult) (ip : Text) (random : Bytes) (now later : ℕ)
      (issued : Issued)
      → Distinct issued
      → later ≤ now + proof_ttl_ms
      → let (issued', proof) = issue_proof c secret layers ip random now later issued in
        get proof.commitment issued' ≡ some now
  unfolding issue_proof generate_zk_proof
  issued_has secret layers ip random now later issued d h =
      let p = generate_zk_proof c secret layers ip random now in
      let on_time : is_expired later now ≡ false = ground arith in
      rw (
        get-retain (λ ts. not (is_expired later ts)) p.commitment (put p.commitment now issued)
            (put-Distinct p.commitment now issued d),
        get-put_self p.commitment now issued,
        on_time,
      )

  -- In a registry that holds each commitment once, a proof that was just issued redeems within its
  -- five minutes: valid, no replay, with as many layers as passed, and "all passed" exactly if the
  -- eight did. A second redemption of it is reported as a replay and is not valid.
  pub issue-redeem_proof :
      (secret : Secret) (layers : LayerResult) (ip : Text) (random : Bytes) (now later t t' : ℕ)
      (issued : Issued)
      → Distinct issued
      → later ≤ now + proof_ttl_ms
      → t ≤ now + proof_ttl_ms
      → let (issued', proof) = issue_proof c secret layers ip random now later issued in
        let (issued'', result, replay) = redeem_proof c secret proof t issued' in
        let (_, again, replay') = redeem_proof c secret proof t' issued'' in
        (result.valid ≡ true)
        × (replay ≡ false)
        × (result.layer_count ≡ layers_passed layers)
        × (result.all_layers_passed ≡ (layers_passed layers == 8))
        × (again.valid ≡ false)
        × (replay' ≡ true)
  unfolding redeem_proof issue_proof generate_zk_proof
  issue-redeem_proof secret layers ip random now later t t' issued d h k =
      let p = generate_zk_proof c secret layers ip random now in
      ground (
        arith,
        issued_has secret layers ip random now later issued d h,
        verify_fresh secret p t k (generated_matches secret layers ip random now),
        layers_to_int_lem layers,
        get-remove_self p.commitment (issue_proof c secret layers ip random now later issued).0,
      )
