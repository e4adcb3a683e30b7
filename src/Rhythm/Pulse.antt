-- ===== src/Rhythm/Pulse.antt =====
-- `generateSyncPulse`: the digits of pi, shuffled by the bytes of an HMAC. The library's digest of
-- 32 bytes is never empty, which `seed_at` relies on for its index alone.
pub mod Shuffle
use x402_health_oracle.Prelude.{
  ℕ, zero, suc, ◌+◌, ◌*◌, ◌%◌, List, [], ◌∷◌, map, get_or, set, length, Text,
}
use x402_health_oracle.Crypto.{Crypto}
use x402_health_oracle.Encoding.Hex.{Bytes}

abbrev pub pi_sequence : List ℕ
pi_sequence = 3 ∷ 1 ∷ 4 ∷ 1 ∷ 5 ∷ 9 ∷ 2 ∷ 6 ∷ 5 ∷ 3 ∷ 5 ∷ 8 ∷ 9 ∷ 7 ∷ 9 ∷ 3 ∷ []

abbrev pub base_delay_us : ℕ
base_delay_us = 150

-- `seed[i % seed.length]`
abbrev pub seed_at : Bytes → ℕ → ℕ
seed_at seed i = get_or seed (i % length seed) 0

-- `[xs[i], xs[j]] = [xs[j], xs[i]]`
abbrev pub swap : ℕ → ℕ → List ℕ → List ℕ
swap i j xs = set (set xs i (get_or xs j 0)) j (get_or xs i 0)

-- The Fisher-Yates loop, from i down to 1.
unfoldable pub shuffle : Bytes → ℕ → List ℕ → List ℕ
shuffle seed zero xs = xs
shuffle seed (suc i) xs = shuffle seed i (swap (suc i) (seed_at seed (suc i) % (suc i + 1)) xs)

module _ (c : Crypto) where
  unfoldable pub sync_pulse : Text → c.Secret → List ℕ
  unfolding shuffle
  sync_pulse session_id secret =
      let seed = c.hmac_sha256 secret session_id in
      map (λ n. n * base_delay_us + seed_at seed n % 50) (shuffle seed 15 pi_sequence)
