-- ===== src/Identity/Tests.antt =====
-- Credentials of concrete agents, where every key recovers to one address and every post-quantum
-- signature verifies.
use x402_health_oracle.Prelude.{
  ◌%◌, ◌≡◌, ◌↔◌, true, false, none, some, ◌++◌, Text, codes, to_lower, length, replicate,
}
use x402_health_oracle.Prelude.Int.{pos}
use x402_health_oracle.Double.Fixed.{Fixed, fixed_Double}
use x402_health_oracle.Identity.{
  Signatures, AgentCredential, is_address, is_untrusted, verify_eip191, credential_message,
  verify_agent_credential,
}
use x402_health_oracle.Identity.Credential.{IsWellFormed, verify_agent_credential_iff}

abbrev toy_signatures : Signatures
toy_signatures = record {
  keccak_256 = λ m. replicate 32 (length m % 256);
  sha256 = λ m. replicate 32 0;
  recover_public_key = λ rs v digest. some (replicate 65 4);
  ml_dsa65_verify = λ signature message key. some true;
}

abbrev a_credential : AgentCredential Fixed
a_credential = record {
  agent_id = codes "agent-1";
  issuer = codes "pq:" ++ replicate 40 b'0';
  reputation = some (pos 5000000);
  expiry = some (pos 9000000);
  nonce = codes "n1";
}

abbrev a_classical_credential : AgentCredential Fixed
a_classical_credential = record a_credential { issuer = codes "0x" ++ replicate 40 b'4' }

abbrev a_signature : Text
a_signature = codes "0x" ++ replicate 130 b'0'

verify_agent_credential_iff_example :
    ((verify_agent_credential toy_signatures a_classical_credential a_signature none 1000).valid
      ≡ true)
    ↔ (IsWellFormed a_classical_credential 1000
        × (is_address a_classical_credential.issuer ≡ true)
        × (verify_eip191 toy_signatures
              (credential_message toy_signatures a_classical_credential)
              a_signature
            ≡ some (to_lower a_classical_credential.issuer))
        × (is_untrusted none (to_lower a_classical_credential.issuer) ≡ false))
verify_agent_credential_iff_example =
    verify_agent_credential_iff toy_signatures a_classical_credential a_signature none 1000
