-- ===== src/Gateway/Pow/Verified.antt =====
-- When `/api/verify-pow` verifies, and that a challenge serves once.
use x402_health_oracle.Prelude.{
  ℕ, ◌≡◌, refl, ◌↔◌, ◌∙◌, sym, ap, Bool, true, false, inl, inr, Option-cases, Option, none, some,
  Text, text_Eq, eq_self, to_lower, arith,
}
use x402_health_oracle.Double.{Double}
use x402_health_oracle.Gateway.Cache.{Cache, IsCache}
use x402_health_oracle.Gateway.Guard.{Guard}
use x402_health_oracle.Gateway.Pow.{Challenge, PowState, ArgonRules}
use x402_health_oracle.Gateway.Pow.Check.{
  PowRequest, PowReply, no_challenge, killed, invalid_structure, hash_invalid, verify_error,
  verified, pow_salt, is_pow_hash, text_or_blank, rejection,
}
use x402_health_oracle.Gateway.Pow.Verify.{grant, check_hash, answer, looked_up, verify_pow}

-- The reply after which the client has proved its work.
abbrev pub is_verified : {W : Type 0} → PowReply W → Bool
is_verified no_challenge = false
is_verified killed = false
is_verified invalid_structure = false
is_verified hash_invalid = false
is_verified verify_error = false
is_verified (verified _) = true

-- The replies for which Argon2id was asked.
abbrev pub is_settled : {W : Type 0} → PowReply W → Bool
is_settled no_challenge = false
is_settled killed = false
is_settled invalid_structure = false
is_settled hash_invalid = true
is_settled verify_error = true
is_settled (verified _) = true

module _ {W : Type 0} ⦃d : Double W⦄ {c : Cache}
    (argon2id : Text → Text → W → W → Option Text) where
  grant_reply :
      (s : PowState c W) (rules : ArgonRules W) (ip : Text) (body : PowRequest W) (hash : Text)
      (later : ℕ)
      → is_verified (grant argon2id s rules ip body hash later).1 ≡ true
  unfolding grant
  grant_reply s rules ip body hash later = refl

  abbrev consumed : PowState c W → Text → PowState c W
  consumed s ip = record s { pending = c.delete s.pending ip }

  check_hash_iff :
      (g : Guard c) (s : PowState c W) (rules : ArgonRules W) (ip : Text) (challenge : Challenge W)
      (body : PowRequest W) (hash : Text) (later : ℕ)
      → (is_verified (check_hash argon2id g s rules ip challenge body hash later).2 ≡ true)
        ↔ (argon2id challenge.target pow_salt challenge.t_cost body.m_cost ≡ some (to_lower hash))
  unfolding check_hash
  check_hash_iff g s rules ip challenge body hash later =
      elim (Option-cases (argon2id challenge.target pow_salt challenge.t_cost body.m_cost)) [
        | inl e ↦ rw e (ground arith)
        | inr (server_hash, e) ↦ rw e (
            ground (
              arith,
              text_Eq.eq_correct server_hash (to_lower hash),
              grant_reply (consumed s ip) rules ip body hash later,
            ))
      ]

  answer_iff :
      (g : Guard c) (s : PowState c W) (rules : ArgonRules W) (ip : Text) (challenge : Challenge W)
      (body : PowRequest W) (now later : ℕ)
      → (is_verified (answer argon2id g s rules ip challenge body now later).2 ≡ true) ↔ (
          (rejection challenge body now ≡ none)
          × (is_pow_hash body.hash ≡ true)
          × (argon2id challenge.target pow_salt challenge.t_cost body.m_cost
              ≡ some (to_lower (text_or_blank body.hash))))
  unfolding answer
  answer_iff g s rules ip challenge body now later =
      ground (arith, check_hash_iff g s rules ip challenge body (text_or_blank body.hash) later)

  pub verify_pow-looked_up :
      (g : Guard c) (s : PowState c W) (rules : ArgonRules W) (ip : Text) (body : PowRequest W)
      (now later : ℕ) (challenge : Challenge W)
      → c.get s.pending ip now ≡ some challenge
      → verify_pow argon2id g s rules ip body now later
        ≡ answer argon2id g (looked_up s ip now) rules ip challenge body now later
  unfolding verify_pow
  verify_pow-looked_up g s rules ip body now later challenge e = rw (e, verify_pow)

  verify_pow-none :
      (g : Guard c) (s : PowState c W) (rules : ArgonRules W) (ip : Text) (body : PowRequest W)
      (now later : ℕ)
      → c.get s.pending ip now ≡ none
      → (verify_pow argon2id g s rules ip body now later).2 ≡ no_challenge
  unfolding verify_pow
  verify_pow-none g s rules ip body now later e = rw (e, verify_pow)

  -- A proof of work is verified exactly if a challenge of the address is pending, the request
  -- passes the four guards (graphics processor, automation, too fast, too slow), its hash has
  -- the form of one, and Argon2id of the challenge, at the challenge's time cost and the
  -- request's memory cost, is the hash in lower case.
  pub verify_pow_iff :
      (g : Guard c) (s : PowState c W) (rules : ArgonRules W) (ip : Text) (body : PowRequest W)
      (now later : ℕ)
      → (is_verified (verify_pow argon2id g s rules ip body now later).2 ≡ true) ↔ (
          (challenge : Challenge W) × (c.get s.pending ip now ≡ some challenge)
          × (rejection challenge body now ≡ none)
          × (is_pow_hash body.hash ≡ true)
          × (argon2id challenge.target pow_salt challenge.t_cost body.m_cost
              ≡ some (to_lower (text_or_blank body.hash))))
  verify_pow_iff g s rules ip body now later = (
    λ h. elim (Option-cases (c.get s.pending ip now)) [
      | inl e ↦ cc (ap is_verified (verify_pow-none g s rules ip body now later e))
      | inr (challenge, e) ↦
          let same =
            ap (λ (x : Guard c × PowState c W × PowReply W). is_verified x.2)
              (verify_pow-looked_up g s rules ip body now later challenge e) in
          let (accepted, valid, hashed) =
            (answer_iff g (looked_up s ip now) rules ip challenge body now later).0
              (sym same ∙ h) in
          (challenge, e, accepted, valid, hashed)
    ],
    λ (challenge, e, accepted, valid, hashed).
        rw (verify_pow-looked_up g s rules ip body now later challenge e) (
          (answer_iff g (looked_up s ip now) rules ip challenge body now later).1
            (accepted, valid, hashed)),
  )

  check_hash_consumes :
      (g : Guard c) (s : PowState c W) (rules : ArgonRules W) (ip : Text) (challenge : Challenge W)
      (body : PowRequest W) (hash : Text) (later : ℕ)
      → (check_hash argon2id g s rules ip challenge body hash later).1.pending
        ≡ c.delete s.pending ip
  unfolding check_hash grant
  check_hash_consumes g s rules ip challenge body hash later = ground arith

  answer_consumes :
      (g : Guard c) (s : PowState c W) (rules : ArgonRules W) (ip : Text) (challenge : Challenge W)
      (body : PowRequest W) (now later : ℕ)
      → is_settled (answer argon2id g s rules ip challenge body now later).2 ≡ true
      → (answer argon2id g s rules ip challenge body now later).1.pending ≡ c.delete s.pending ip
  unfolding answer
  answer_consumes g s rules ip challenge body now later h =
      ground
        (arith, check_hash_consumes g s rules ip challenge body (text_or_blank body.hash) later)

  -- A challenge serves once: after a request for which Argon2id was asked, whatever it found,
  -- the next request of the address is told that there is no challenge. It takes the laws of
  -- the caches.
  pub verify_pow_once :
      (laws : IsCache c) (g g' : Guard c) (s : PowState c W) (rules : ArgonRules W) (ip : Text)
      (body body' : PowRequest W) (now later now' later' : ℕ)
      → is_settled (verify_pow argon2id g s rules ip body now later).2 ≡ true
      → (verify_pow argon2id g'
          (verify_pow argon2id g s rules ip body now later).1
          rules
          ip
          body'
          now'
          later').2
        ≡ no_challenge
  verify_pow_once laws g g' s rules ip body body' now later now' later' h =
      elim (Option-cases (c.get s.pending ip now)) [
        | inl e ↦ cc (ap is_settled (verify_pow-none g s rules ip body now later e))
        | inr (challenge, e) ↦
            let same = verify_pow-looked_up g s rules ip body now later challenge e in
            let gone =
              answer_consumes g (looked_up s ip now) rules ip challenge body now later
                (rw same at h) in
            verify_pow-none g' (verify_pow argon2id g s rules ip body now later).1 rules ip body'
              now' later'
              (rw (same, gone, laws.get-delete (c.touch s.pending ip now) ip ip now', eq_self ip))
      ]
