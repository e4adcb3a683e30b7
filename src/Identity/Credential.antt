-- ===== src/Identity/Credential.antt =====
-- When a signed credential is accepted.
use x402_health_oracle.Prelude.{
  ℕ, ◌≡◌, ◌≢◌, [], eq_self, ◌↔◌, refl, true, false, Option, none, some, List, arith, Text, text_Eq,
  to_lower, length,
}
use x402_health_oracle.Encoding.Hex.{Bytes}
use x402_health_oracle.Encoding.Utf8.{utf8}
use x402_health_oracle.Double.{Double}
use x402_health_oracle.Identity.{
  Signatures, AgentCredential, is_address, is_fingerprint, is_untrusted, is_blank,
  reputation_in_range, is_current, verify_eip191, credential_message, verify_agent_credential,
  verify_ml_dsa_bytes, verify_ml_dsa_credential, hex_to_bytes, ml_dsa_fingerprint,
  ml_dsa_publickey_bytes, ml_dsa_signature_bytes,
}

abbrev signer_or_empty : Option Text → Text
signer_or_empty none = []
signer_or_empty (some s) = s

some_of {ℓ} : {A : Type ℓ} (o : Option A) → o ≢ none → (a : A) × (o ≡ some a)
some_of none h = absurd (h refl)
some_of (some a) h = (a, refl)

-- A credential with an agent id, and with a reputation and an expiry that are in range.
abbrev pub IsWellFormed {ℓ} : {W : Type ℓ} ⦃d : Double W⦄ → AgentCredential W → ℕ → Type 0
IsWellFormed c now =
    (is_blank c.agent_id ≡ false)
    × (reputation_in_range c.reputation ≡ true)
    × (is_current c.expiry now ≡ true)

module _ {ℓ} {W : Type ℓ} ⦃d : Double W⦄ (g : Signatures) where
  -- The classical check accepts exactly the credentials that are well formed and current, whose
  -- issuer is an address, whose signature over the canonical message recovers to the issuer, and
  -- whose issuer is trusted where a list of trusted issuers is given.
  pub verify_agent_credential_iff :
      (c : AgentCredential W) (signature : Text) (trusted : Option (List Text)) (now : ℕ)
      → ((verify_agent_credential g c signature trusted now).valid ≡ true) ↔ (
          IsWellFormed c now
          × (is_address c.issuer ≡ true)
          × (verify_eip191 g (credential_message g c) signature ≡ some (to_lower c.issuer))
          × (is_untrusted trusted (to_lower c.issuer) ≡ false))
  unfolding verify_agent_credential
  verify_agent_credential_iff c signature trusted now = (
    λ h. ground (
      arith,
      text_Eq.eq_correct (signer_or_empty (verify_eip191 g (credential_message g c) signature))
          (to_lower c.issuer),
    ),
    λ h. ground (arith, eq_self (to_lower c.issuer)),
  )

  -- The post-quantum check accepts only credentials that are well formed and current, whose
  -- issuer is the fingerprint of the presented key, with a key and a signature of the sizes of
  -- ML-DSA-65 that verify over the canonical message, and whose issuer is trusted where a list of
  -- trusted issuers is given.
  pub verify_ml_dsa_credential_sound :
      (c : AgentCredential W) (signature_hex key_hex : Text) (trusted : Option (List Text))
      (now : ℕ)
      → ((verify_ml_dsa_credential g c signature_hex key_hex trusted now).valid ≡ true)
      → (key : Bytes) × (signature : Bytes) × IsWellFormed c now
        × (hex_to_bytes key_hex ≡ some key)
        × (hex_to_bytes signature_hex ≡ some signature)
        × (is_fingerprint c.issuer ≡ true)
        × (ml_dsa_fingerprint g key ≡ c.issuer)
        × (length key ≡ ml_dsa_publickey_bytes)
        × (length signature ≡ ml_dsa_signature_bytes)
        × (g.ml_dsa65_verify signature (utf8 (credential_message g c)) key ≡ some true)
        × (is_untrusted trusted c.issuer ≡ false)
  unfolding verify_ml_dsa_credential verify_ml_dsa_bytes
  verify_ml_dsa_credential_sound c signature_hex key_hex trusted now h =
      let (key, has_key) = some_of (hex_to_bytes key_hex) (ground arith) in
      let (signature, has_signature) = some_of (hex_to_bytes signature_hex) (ground arith) in
      let fp = text_Eq.eq_correct (ml_dsa_fingerprint g key) c.issuer in
      (
        key,
        signature,
        ground arith,
        has_key,
        has_signature,
        ground arith,
        ground (arith, fp),
        ground arith,
        ground arith,
        ground (arith, fp),
        ground (arith, fp),
      )
