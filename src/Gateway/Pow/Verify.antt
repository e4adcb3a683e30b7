-- ===== src/Gateway/Pow/Verify.antt =====
-- `/api/verify-pow` of gateway/server.ts: the handler. `now` is the clock until Argon2id is waited
-- for, `later` the clock after it.
use x402_health_oracle.Prelude.{
  ℕ, Option, none, some, if◌then◌else◌, Text, to_lower, text_Eq, ◌===◌,
}
use x402_health_oracle.Double.{Double}
use x402_health_oracle.Bans.Profiles.{persist_profile, load_profile}
use x402_health_oracle.Gateway.Cache.{Cache}
use x402_health_oracle.Gateway.Guard.{Guard, ban}
use x402_health_oracle.Gateway.Pow.{Challenge, ArgonRules, PowState, profile_or}
use x402_health_oracle.Gateway.Pow.Check.{
  PowRequest, PowReply, text_or_blank, is_pow_hash, forgery, pow_salt, rejection, known_profile,
  credited, no_challenge, killed, invalid_structure, hash_invalid, verify_error, verified,
}

module _ {c : Cache} {W : Type 0} where
  -- What `get` leaves of the cache of challenges.
  abbrev pub looked_up : PowState c W → Text → ℕ → PowState c W
  looked_up s ip now = record s { pending = c.touch s.pending ip now }

module _ {W : Type 0} ⦃d : Double W⦄ {c : Cache}
    (argon2id : Text → Text → W → W → Option Text) where
  -- A hash that the server has computed too.
  unfoldable pub grant :
      PowState c W → ArgonRules W → Text → PowRequest W → Text → ℕ → PowState c W × PowReply W
  unfolding credited known_profile
  grant s rules ip body hash later =
      let known = known_profile (load_profile s.persisted ip) rules in
      let p = credited (profile_or (c.get s.profiles ip later) known) body.calc_time in
      (
        record s {
          verified =
              c.set s.verified ip
                (record {
                  nonce = hash;
                  calc_time = body.calc_time;
                  m_cost = body.m_cost;
                  verified_at = later;
                })
                later;
          profiles = c.set (c.touch s.profiles ip later) ip p later;
          persisted =
              persist_profile s.persisted ip
                (record {
                  m_cost = some p.m_cost;
                  t_cost = some p.t_cost;
                  successes = some p.successes;
                  trust_score = none;
                  last_seen = none;
                })
                later later;
        },
        verified p.m_cost,
      )

  -- From the deletion of the challenge on.
  unfoldable pub check_hash :
      Guard c
      → PowState c W
      → ArgonRules W
      → Text
      → Challenge W
      → PowRequest W
      → Text
      → ℕ
      → Guard c × PowState c W × PowReply W
  check_hash g s rules ip challenge body hash later =
      let consumed = record s { pending = c.delete s.pending ip } in
      let (granted, reply) = grant consumed rules ip body hash later in
      elim (argon2id challenge.target pow_salt challenge.t_cost body.m_cost) [
        | none ↦ (g, consumed, verify_error)
        | some server_hash ↦
            if server_hash === to_lower hash
            then (g, granted, reply)
            else (ban g ip forgery later, consumed, hash_invalid)
      ]

  -- From the challenge on.
  unfoldable pub answer :
      Guard c
      → PowState c W
      → ArgonRules W
      → Text
      → Challenge W
      → PowRequest W
      → ℕ
      → ℕ
      → Guard c × PowState c W × PowReply W
  answer g s rules ip challenge body now later = elim (rejection challenge body now) [
    | some reason ↦ (ban g ip reason now, s, killed)
    | none ↦
        if is_pow_hash body.hash
        then check_hash g s rules ip challenge body (text_or_blank body.hash) later
        else (g, s, invalid_structure)
  ]

  -- `/api/verify-pow`
  unfoldable pub verify_pow :
      Guard c
      → PowState c W
      → ArgonRules W
      → Text
      → PowRequest W
      → ℕ
      → ℕ
      → Guard c × PowState c W × PowReply W
  verify_pow g s rules ip body now later = elim (c.get s.pending ip now) [
    | none ↦ (g, looked_up s ip now, no_challenge)
    | some challenge ↦ answer g (looked_up s ip now) rules ip challenge body now later
  ]
