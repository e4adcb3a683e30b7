-- ===== src/Gateway/Tests/Proofs.antt =====
-- Challenges on concrete requests.
use Prim.Native.Nat.{min}
use x402_health_oracle.Prelude.{
  ◌+◌, ◌-◌, ◌≤◌, ◌≡◌, refl, ◌↔◌, true, Option, none, some, List, [], ◌∷◌, length, arith, Text,
  codes, to_lower, lower_code, replicate,
}
use x402_health_oracle.Prelude.Int.{pos}
use x402_health_oracle.Double.Fixed.{Fixed, fixed_Double}
use x402_health_oracle.Bans.{missing}
use x402_health_oracle.Encoding.Hex.{is_hex, nibble}
use x402_health_oracle.Automation.{detect_automation}
use x402_health_oracle.Gateway.Cache.{has}
use x402_health_oracle.Gateway.Cache.Dict.{lru, lru-IsCache}
use x402_health_oracle.Gateway.Pow.{
  number, Challenge, PowState, ArgonRules, challenge_issued, request_challenge,
}
use x402_health_oracle.Gateway.Pow.Check.{
  PowRequest, pow_salt, is_pow_hash, text_or_blank, rejection, gpu_mismatch, no_challenge,
  least_time,
}
use x402_health_oracle.Gateway.Pow.Verify.{check_hash, grant, answer, verify_pow}
use x402_health_oracle.Gateway.Pow.Honest.{IsHonest, honest_verified}
use x402_health_oracle.Gateway.Pow.Limit.{Asking, run, run_issued}
use x402_health_oracle.Gateway.Pow.Verified.{
  is_verified, is_settled, verify_pow_iff, verify_pow_once,
}
use x402_health_oracle.Gateway.Pow.Memory.{with_memory, verify_pow_any_memory}
use x402_health_oracle.Gateway.Tests.{empty_store, a_guard, an_ip}

abbrev zeros : Text
zeros = replicate 64 b'0'

-- Every password has the same digest.
abbrev toy_argon2id : Text → Text → Fixed → Fixed → Option Text
toy_argon2id target salt t_cost m_cost = some zeros

abbrev a_challenge : Challenge Fixed
a_challenge = record {
  target = codes "ab";
  start_time = 1000;
  m_cost = some (pos 16384000);
  t_cost = some (pos 3000);
}

abbrev a_pow : PowState lru Fixed
a_pow = record {
  governor = record { count = 0; last_reset = 0 };
  pending = record { max = 9; ttl = 60000; entries = (an_ip, (a_challenge, 1000)) ∷ [] };
  verified = empty_store 300000;
  profiles = empty_store 3600000;
  persisted = record { profiles = []; file = missing };
}

abbrev rules : ArgonRules Fixed
rules = record { time = some (pos 3000); memory = some (pos 16384000) }

abbrev a_body : PowRequest Fixed
a_body = record {
  hash = some zeros;
  calc_time = number (some (pos 20000));
  m_cost = some (pos 16384000);
  gpu = none;
  automation = record {
    webdriver = none;
    has_chromedriver_cdc = none;
    has_phantom_artifact = none;
    has_nightmare_artifact = none;
    plugins_length = none;
    languages_empty = none;
  };
  ua = codes "x";
}

verify_pow_iff_example :
    (is_verified (verify_pow toy_argon2id a_guard a_pow rules an_ip a_body 21000 21100).2 ≡ true)
    ↔ ((challenge : Challenge Fixed) × (lru.get a_pow.pending an_ip 21000 ≡ some challenge)
        × (rejection challenge a_body 21000 ≡ none)
        × (is_pow_hash a_body.hash ≡ true)
        × (toy_argon2id challenge.target pow_salt challenge.t_cost a_body.m_cost
            ≡ some (to_lower (text_or_blank a_body.hash))))
verify_pow_iff_example = verify_pow_iff toy_argon2id a_guard a_pow rules an_ip a_body 21000 21100

a_body-settled :
    is_settled (verify_pow toy_argon2id a_guard a_pow rules an_ip a_body 21000 21100).2 ≡ true
unfolding verify_pow answer check_hash rejection gpu_mismatch least_time detect_automation
    fixed_Double is_hex nibble lower_code grant
a_body-settled = refl

verify_pow_once_example :
    let s' = (verify_pow toy_argon2id a_guard a_pow rules an_ip a_body 21000 21100).1 in
    (verify_pow toy_argon2id a_guard s' rules an_ip a_body 22000 22100).2 ≡ no_challenge
verify_pow_once_example =
    verify_pow_once toy_argon2id lru-IsCache a_guard a_guard a_pow rules an_ip a_body a_body 21000
      21100 22000 22100 a_body-settled

pending_ttl : 21000 ≤ 1000 + lru.ttl a_pow.pending
pending_ttl = omega arith

verify_pow_any_memory_example :
    (verify_pow toy_argon2id a_guard
      (record a_pow { pending = lru.set a_pow.pending an_ip a_challenge 1000 })
      rules
      an_ip
      a_body
      21000
      21100).2
    ≡ (verify_pow toy_argon2id a_guard
        (record a_pow {
          pending = lru.set a_pow.pending an_ip (with_memory a_challenge (some (pos 8000))) 1000;
        })
        rules
        an_ip
        a_body
        21000
        21100).2
verify_pow_any_memory_example =
    verify_pow_any_memory toy_argon2id lru-IsCache a_guard a_pow rules an_ip a_challenge
      (some (pos 8000)) a_body 1000 21000 21100 (omega arith) pending_ttl

abbrev asks : List Asking
asks = record { ip = an_ip; target = codes "ab"; time = 10 } ∷ []

run_issued_example : (run a_pow rules asks).1 ≡ min (50 - 0) (length asks)
run_issued_example = run_issued a_pow rules asks (omega arith) (omega arith, tt)

abbrev fresh_pow : PowState lru Fixed
fresh_pow = record a_pow { pending = empty_store 300000 }

a_challenge-issued :
    (request_challenge fresh_pow rules an_ip (codes "ab") 1000).1
    ≡ challenge_issued (codes "ab") (some (pos 16384000)) (some (pos 3000))
unfolding request_challenge
a_challenge-issued = refl

a_body-IsHonest : IsHonest a_body (some (pos 16384000)) 1000 21000
unfolding gpu_mismatch detect_automation least_time fixed_Double is_hex nibble
a_body-IsHonest = record {
  same_cost = refl;
  fits = refl;
  manual = refl;
  not_early = refl;
  not_late = refl;
  hex = refl;
}

zeros-lower : some zeros ≡ some (to_lower zeros)
unfolding lower_code
zeros-lower = refl

honest_verified_example :
    let s' = (request_challenge fresh_pow rules an_ip (codes "ab") 1000).0 in
    let (_, s'', reply) = verify_pow toy_argon2id a_guard s' rules an_ip a_body 21000 21100 in
    (is_verified reply ≡ true) × (has lru s''.verified an_ip 60000 ≡ true)
honest_verified_example =
    honest_verified toy_argon2id lru-IsCache a_guard fresh_pow rules an_ip (codes "ab")
      (some (pos 16384000)) (some (pos 3000)) a_body 1000 21000 21100 60000 a_challenge-issued
      a_body-IsHonest zeros-lower (omega arith) (omega arith) (omega arith) (omega arith)
