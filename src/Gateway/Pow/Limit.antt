-- ===== src/Gateway/Pow/Limit.antt =====
-- The governor of `/api/challenge`: how many challenges are given out between two resets.
use Prim.Native.Nat.{min}
use x402_health_oracle.Prelude.{
  ℕ, ◌+◌, ◌≤◌, ◌≡◌, List, [], ◌∷◌, Text, arith, All, leb, ◌-◌, length, if◌then◌else◌,
}
use x402_health_oracle.Gateway.Cache.{Cache}
use x402_health_oracle.Gateway.Pow.{
  PowState, ArgonRules, ChallengeReply, challenge_issued, too_many, request_challenge,
}

-- A request for a challenge: its address, the random text and its time.
pub record Asking : Type 0 where
  pub ip : Text
  pub target : Text
  pub time : ℕ

abbrev pub is_issued : {W : Type 0} → ChallengeReply W → ℕ
is_issued too_many = 0
is_issued (challenge_issued _ _ _) = 1

module _ {c : Cache} {W : Type 0} where
  -- How many challenges a sequence of requests is given, and the state after it.
  abbrev pub run : PowState c W → ArgonRules W → List Asking → PowState c W × ℕ
  run s rules [] = (s, 0)
  run s rules (a ∷ rest) =
      let (s', reply) = request_challenge s rules a.ip a.target a.time in
      let (end, count) = run s' rules rest in (end, is_issued reply + count)

  -- A request before the second is over.
  asked_in_time :
      (s : PowState c W) (rules : ArgonRules W) (a : Asking)
      → a.time ≤ s.governor.last_reset + 1000
      → let (s', reply) = request_challenge s rules a.ip a.target a.time in
        (s'.governor.last_reset ≡ s.governor.last_reset)
        × (s'.governor.count ≡ s.governor.count + is_issued reply)
        × (is_issued reply ≡ (if leb 50 s.governor.count then 0 else 1))
  unfolding request_challenge
  asked_in_time s rules a early = ground arith

  -- Of the requests for a challenge that come within a second of the last reset, from whatever
  -- addresses, as many are given one as there are, until fifty have been given one since the
  -- reset.
  pub run_issued :
      (s : PowState c W) (rules : ArgonRules W) (asks : List Asking)
      → s.governor.count ≤ 50
      → All (λ a. a.time ≤ s.governor.last_reset + 1000) asks
      → (run s rules asks).1 ≡ min (50 - s.governor.count) (length asks)
  run_issued s rules [] few early = omega arith
  run_issued s rules (a ∷ rest) few (now, later) =
      let s' = (request_challenge s rules a.ip a.target a.time).0 in
      let step = asked_in_time s rules a now in
      let same = run_issued s' rules rest (ground (arith, step)) (rw (step.0) later) in
      ground (arith, step, same)
