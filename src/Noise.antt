-- ===== src/Noise.antt =====
-- gateway/src/services/noiseBridge.ts. The random numbers that stand in for missing noise are an
-- argument.
use x402_health_oracle.Prelude.{List, [], ◌∷◌}

-- `updateNoise`: the latest noise is the new one.
abbrev pub update_noise {ℓ} : {W : Type ℓ} → List W → List W → List W
update_noise latest deltas = deltas

-- `getCpuNoise`
unfoldable pub get_cpu_noise {ℓ} : {W : Type ℓ} → List W → List W → List W
get_cpu_noise [] random = random
get_cpu_noise (x ∷ latest) random = x ∷ latest
