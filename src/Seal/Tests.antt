-- ===== src/Seal/Tests.antt =====
-- Seals under a concrete secret.
use x402_health_oracle.Prelude.{◌*◌, ◌≡◌, ◌↔◌, refl, true, Option, none, some, [], Text, codes}
use x402_health_oracle.Prelude.Int.{pos}
use x402_health_oracle.Crypto.{toy_crypto}
use x402_health_oracle.Encoding.Hex.{to_hex, hex_digit}
use x402_health_oracle.Double.{num, ◌⊖◌}
use x402_health_oracle.Double.Laws.{◌≼◌}
use x402_health_oracle.Double.Fixed.{Fixed, fixed_Double, Fixed-IsOrdered}
use x402_health_oracle.Rhythm.Session.{get_trust_status}
use x402_health_oracle.Seal.{
  SealData, out_of_window, accept, should_trigger_argon2, expected_sig, noise_text, check_seal,
  verify_entropy_seal,
}
use x402_health_oracle.Seal.Acceptance.{IsTimely, verify_entropy_seal_iff, check_seal_replay}

-- Made 1 s ago by the clock of the server.
abbrev a_seal : SealData Fixed
a_seal = record {
  sig = some (expected_sig toy_crypto 5 (codes "s1") 3 (codes "n"));
  ts = some (pos 5000000000);
  seq = some 3;
}

abbrev read_header : Text → Option (SealData Fixed)
read_header _ = some a_seal

verify_entropy_seal_iff_example :
    ((verify_entropy_seal toy_crypto read_header []
        (codes "s1")
        (some (codes "h"))
        (some (codes "n"))
        3
        5
        6000).valid
      ≡ true)
    ↔ (IsTimely (num (6000 * 1000) ⊖ a_seal.ts)
        × (a_seal.seq ≡ some 3)
        × (a_seal.sig
            ≡ some (expected_sig toy_crypto 5 (codes "s1") 3 (noise_text (some (codes "n"))))))
verify_entropy_seal_iff_example =
    verify_entropy_seal_iff toy_crypto Fixed-IsOrdered read_header [] (codes "s1")
      (some (codes "h")) (some (codes "n")) 3 5 6000 (codes "h") a_seal refl refl

check_seal_accepts :
    (check_seal toy_crypto [] (codes "s1") a_seal (codes "n") 3 5 6000).valid ≡ true
unfolding check_seal out_of_window accept should_trigger_argon2 expected_sig fixed_Double to_hex
    hex_digit get_trust_status
check_seal_accepts = refl

abbrev age_of_nan : Fixed
age_of_nan = num (9000000 * 1000) ⊖ none

nan-ne-le : ¬ (age_of_nan ≼ age_of_nan)
unfolding fixed_Double
nan-ne-le h = cc

check_seal_replay_example :
    (check_seal toy_crypto []
      (codes "s1")
      (record a_seal { ts = none })
      (codes "n")
      3
      5
      9000000).valid
    ≡ true
check_seal_replay_example =
    check_seal_replay toy_crypto Fixed-IsOrdered [] [] (codes "s1") a_seal none (codes "n") 3 5 6000
      9000000 nan-ne-le check_seal_accepts
