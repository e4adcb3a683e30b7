-- ===== src/Gateway/Pow/Memory.antt =====
-- Which memory cost a proof of work is checked with.
use x402_health_oracle.Prelude.{ℕ, ◌+◌, ◌≤◌, ◌≡◌, refl, ◌∙◌, sym, ap, Option, Text, text_Eq, arith}
use x402_health_oracle.Double.{Double}
use x402_health_oracle.Gateway.Cache.{Cache, IsCache}
use x402_health_oracle.Gateway.Guard.{Guard}
use x402_health_oracle.Gateway.Pow.{Challenge, PowState, ArgonRules}
use x402_health_oracle.Gateway.Pow.Check.{PowRequest, PowReply, text_or_blank, rejection}
use x402_health_oracle.Gateway.Pow.Verify.{grant, check_hash, answer, looked_up, verify_pow}
use x402_health_oracle.Gateway.Pow.Verified.{verify_pow-looked_up}

abbrev pub with_memory : {W : Type 0} → Challenge W → W → Challenge W
with_memory challenge m_cost = record challenge { m_cost = m_cost }

module _ {W : Type 0} ⦃d : Double W⦄ where
  rejection_any_memory :
      (challenge : Challenge W) (m_cost : W) (body : PowRequest W) (now : ℕ)
      → rejection (with_memory challenge m_cost) body now ≡ rejection challenge body now
  unfolding rejection
  rejection_any_memory challenge m_cost body now = refl

module _ {W : Type 0} ⦃d : Double W⦄ {c : Cache}
    (argon2id : Text → Text → W → W → Option Text) where
  grant_any_pending :
      (s : PowState c W) (pending : c.Store (Challenge W)) (rules : ArgonRules W) (ip : Text)
      (body : PowRequest W) (hash : Text) (later : ℕ)
      → (grant argon2id (record s { pending = pending }) rules ip body hash later).1
        ≡ (grant argon2id s rules ip body hash later).1
  unfolding grant
  grant_any_pending s pending rules ip body hash later = refl

  answer_any_memory :
      (g : Guard c) (s : PowState c W) (pending : c.Store (Challenge W)) (rules : ArgonRules W)
      (ip : Text) (challenge : Challenge W) (m_cost : W) (body : PowRequest W) (now later : ℕ)
      → (answer argon2id g s rules ip challenge body now later).2
        ≡ (answer argon2id g
            (record s { pending = pending })
            rules
            ip
            (with_memory challenge m_cost)
            body
            now
            later).2
  unfolding answer check_hash
  answer_any_memory g s pending rules ip challenge m_cost body now later =
      let hash = text_or_blank body.hash in
      ground (
        arith,
        rejection_any_memory challenge m_cost body now,
        grant_any_pending s (c.delete s.pending ip) rules ip body hash later,
        grant_any_pending s (c.delete pending ip) rules ip body hash later,
      )

  -- The memory cost of the challenge plays no part in the reply: a request has the same reply
  -- for a challenge of any other memory cost, while the challenge is pending. It takes the laws
  -- of the caches.
  pub verify_pow_any_memory :
      (laws : IsCache c) (g : Guard c) (s : PowState c W) (rules : ArgonRules W) (ip : Text)
      (challenge : Challenge W) (m_cost : W) (body : PowRequest W) (start now later : ℕ)
      → start ≤ now
      → now ≤ start + c.ttl s.pending
      → (verify_pow argon2id g
          (record s { pending = c.set s.pending ip challenge start })
          rules
          ip
          body
          now
          later).2
        ≡ (verify_pow argon2id g
            (record s { pending = c.set s.pending ip (with_memory challenge m_cost) start })
            rules
            ip
            body
            now
            later).2
  verify_pow_any_memory laws g s rules ip challenge m_cost body start now later after in_time =
      let pending = c.set s.pending ip challenge start in
      let pending' = c.set s.pending ip (with_memory challenge m_cost) start in
      let t = record s { pending = pending } in
      let t' = record s { pending = pending' } in
      let found = laws.get-set_self s.pending ip challenge start now after in_time in
      let found' =
        laws.get-set_self s.pending ip (with_memory challenge m_cost) start now after in_time in
      ap (λ (x : Guard c × PowState c W × PowReply W). x.2)
        (verify_pow-looked_up argon2id g t rules ip body now later challenge found)
      ∙ answer_any_memory g (looked_up t ip now) (c.touch pending' ip now) rules ip challenge m_cost
          body now later
      ∙ sym (
          ap (λ (x : Guard c × PowState c W × PowReply W). x.2)
            (verify_pow-looked_up argon2id g t' rules ip body now later
              (with_memory challenge m_cost) found'))
