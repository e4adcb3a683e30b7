-- ===== src/Jitter/Workload.antt =====
-- `microWorkload` of gateway/src/services/jitterProbe.ts. `>>> 0` is `% 2 ^ 32`. The product with
-- the round is below 2 ^ 53, and so exact, for the first 3393918 rounds.
use Prim.Native.Nat.{bit_xor}
use x402_health_oracle.Prelude.{ℕ, zero, suc, ◌+◌, ◌*◌, ◌/◌, ◌%◌, ◌^◌, ◌<◌, arith}

abbrev pub u32 : ℕ → ℕ
u32 n = n % 2 ^ 32

-- One round; the product of a signed 32-bit number by 5 has the same last 32 bits.
unfoldable pub mix : ℕ → ℕ → ℕ
mix i acc =
    let added = u32 (acc + u32 (i * 2654435761)) in
    let mixed = bit_xor added (added / 2 ^ 13) in u32 (mixed * 5)

unfoldable pub work : ℕ → ℕ → ℕ → ℕ
work zero i acc = acc
work (suc rounds) i acc = work rounds (i + 1) (mix i acc)

unfoldable pub micro_workload : ℕ → ℕ
unfolding work mix
micro_workload rounds = work rounds 0 0

work-lt : (rounds i acc : ℕ) → acc < 2 ^ 32 → work rounds i acc < 2 ^ 32
unfolding work mix
work-lt zero i acc h = h
work-lt (suc rounds) i acc h = work-lt rounds (i + 1) (mix i acc) (omega arith)

-- The accumulator is always a 32-bit number.
pub micro_workload-lt : (rounds : ℕ) → micro_workload rounds < 2 ^ 32
unfolding micro_workload
micro_workload-lt rounds = work-lt rounds 0 0 (omega arith)
