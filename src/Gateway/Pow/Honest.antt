-- ===== src/Gateway/Pow/Honest.antt =====
-- An honest client, from its challenge to its proof of work.
use x402_health_oracle.Prelude.{
  ℕ, ◌+◌, ◌≤◌, ◌≡◌, refl, ap, true, false, Option, none, some, Text, to_lower, arith, text_Eq,
}
use x402_health_oracle.Prelude.Int.{sub_ℕ}
use x402_health_oracle.Prelude.Dict.{is_some}
use x402_health_oracle.Automation.{detect_automation}
use x402_health_oracle.Double.{Double}
use x402_health_oracle.Gateway.Cache.{Cache, IsCache, has}
use x402_health_oracle.Gateway.Guard.{Guard}
use x402_health_oracle.Gateway.Pow.{
  Challenge, VerifiedPow, PowState, ArgonRules, challenge_issued, request_challenge,
}
use x402_health_oracle.Gateway.Pow.Check.{
  PowRequest, gpu_mismatch, is_pow_hash, pow_salt, text_or_blank, is_below, is_above, least_time,
  whole, rejection,
}
use x402_health_oracle.Gateway.Pow.Verify.{verify_pow, answer, check_hash, grant, looked_up}
use x402_health_oracle.Gateway.Pow.Verified.{is_verified, verify_pow_iff, verify_pow-looked_up}

-- What the body of an honest client says of a challenge that was issued at `start` with the cost
-- `m_cost`: a device that fits, no automation, and a time that is neither too short for the memory
-- nor longer than the time that has passed.
pub record IsHonest {W : Type 0} ⦃d : Double W⦄ (body : PowRequest W) (m_cost : W) (start now : ℕ)
    : Type 0 where
  pub same_cost : body.m_cost ≡ m_cost
  pub fits : gpu_mismatch body.gpu body.ua ≡ false
  pub manual : (detect_automation body.automation).detected ≡ false
  pub not_early : is_below body.calc_time (least_time m_cost) ≡ false
  pub not_late : is_above body.calc_time (whole (sub_ℕ (now + 70) start)) ≡ false
  pub hex : is_pow_hash body.hash ≡ true

-- What is kept of a verified proof of work.
abbrev work_of : {W : Type 0} → PowRequest W → ℕ → VerifiedPow W
work_of body later = record {
  nonce = text_or_blank body.hash;
  calc_time = body.calc_time;
  m_cost = body.m_cost;
  verified_at = later;
}

module _ {W : Type 0} ⦃d : Double W⦄ where
  honest_rejection :
      (challenge : Challenge W) (body : PowRequest W) (now : ℕ)
      → IsHonest body challenge.m_cost challenge.start_time now
      → rejection challenge body now ≡ none
  unfolding rejection
  honest_rejection challenge body now honest =
      rw (honest.same_cost, honest.fits, honest.manual, honest.not_early, honest.not_late) refl

module _ {c : Cache} {W : Type 0} where
  -- The state and the costs of a challenge that is given out.
  issued_pending :
      (s : PowState c W) (rules : ArgonRules W) (ip target : Text) (now : ℕ) (m_cost t_cost : W)
      → (request_challenge s rules ip target now).1 ≡ challenge_issued target m_cost t_cost
      → (request_challenge s rules ip target now).0.pending
        ≡ c.set s.pending ip
            (record { target = target; start_time = now; m_cost = m_cost; t_cost = t_cost })
            now
  unfolding request_challenge
  issued_pending s rules ip target now m_cost t_cost h = ground arith

  issued_verified :
      (s : PowState c W) (rules : ArgonRules W) (ip target : Text) (now : ℕ)
      → (request_challenge s rules ip target now).0.verified ≡ s.verified
  unfolding request_challenge
  issued_verified s rules ip target now = ground arith

module _ {W : Type 0} ⦃d : Double W⦄ {c : Cache}
    (argon2id : Text → Text → W → W → Option Text) where
  answer_keeps :
      (g : Guard c) (s : PowState c W) (rules : ArgonRules W) (ip : Text) (challenge : Challenge W)
      (body : PowRequest W) (now later : ℕ)
      → is_verified (answer argon2id g s rules ip challenge body now later).2 ≡ true
      → (answer argon2id g s rules ip challenge body now later).1.verified
        ≡ c.set s.verified ip (work_of body later) later
  unfolding answer check_hash grant
  answer_keeps g s rules ip challenge body now later h = ground arith

  -- A verified proof of work is held until its time to live is over.
  verified_held :
      (laws : IsCache c) (g : Guard c) (s : PowState c W) (rules : ArgonRules W) (ip : Text)
      (body : PowRequest W) (now later u : ℕ) (challenge : Challenge W)
      → c.get s.pending ip now ≡ some challenge
      → is_verified (verify_pow argon2id g s rules ip body now later).2 ≡ true
      → later ≤ u
      → u ≤ later + c.ttl s.verified
      → has c (verify_pow argon2id g s rules ip body now later).1.verified ip u ≡ true
  verified_held laws g s rules ip body now later u challenge found h after in_time =
      let same = verify_pow-looked_up argon2id g s rules ip body now later challenge found in
      let kept =
        answer_keeps g (looked_up s ip now) rules ip challenge body now later (rw same at h) in
      rw (same, kept)
        (ap is_some (laws.get-set_self s.verified ip (work_of body later) later u after in_time))

  -- An honest client gets through: if a challenge was given out, and the client, within its
  -- time to live, sends the hash that Argon2id has for the target at the challenge's costs,
  -- with a device that fits, no automation, and a time that is neither too short for the memory
  -- nor longer than has passed, then it is verified, and the proof of work is held until its
  -- own time to live is over. It takes the laws of the caches.
  pub honest_verified :
      (laws : IsCache c) (g : Guard c) (s : PowState c W) (rules : ArgonRules W) (ip target : Text)
      (m_cost t_cost : W) (body : PowRequest W) (start now later u : ℕ)
      → (request_challenge s rules ip target start).1 ≡ challenge_issued target m_cost t_cost
      → IsHonest body m_cost start now
      → argon2id target pow_salt t_cost m_cost ≡ some (to_lower (text_or_blank body.hash))
      → start ≤ now
      → now ≤ start + c.ttl s.pending
      → later ≤ u
      → u ≤ later + c.ttl s.verified
      → let s' = (request_challenge s rules ip target start).0 in
        let (_, s'', reply) = verify_pow argon2id g s' rules ip body now later in
        (is_verified reply ≡ true) × (has c s''.verified ip u ≡ true)
  honest_verified laws g s rules ip target m_cost t_cost body start now later u issued honest hashed
        after in_time then_ held =
      let challenge : Challenge W = record {
        target = target;
        start_time = start;
        m_cost = m_cost;
        t_cost = t_cost;
      } in
      let s' = (request_challenge s rules ip target start).0 in
      let found : c.get s'.pending ip now ≡ some challenge =
        rw (issued_pending s rules ip target start m_cost t_cost issued)
          (laws.get-set_self s.pending ip challenge start now after in_time) in
      let accepted = (verify_pow_iff argon2id g s' rules ip body now later).1 (
        challenge,
        found,
        honest_rejection challenge body now honest,
        honest.hex,
        rw honest.same_cost hashed,
      ) in
      (
        accepted,
        verified_held laws g s' rules ip body now later u challenge found accepted then_
            (rw (issued_verified s rules ip target start) held),
      )
