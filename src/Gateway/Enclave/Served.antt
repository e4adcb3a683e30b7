-- ===== src/Gateway/Enclave/Served.antt =====
-- Whom the enclave serves.
use x402_health_oracle.Prelude.{
  ℕ, ◌+◌, ◌≡◌, ◌⊎◌, ◌↔◌, true, false, ◌&&◌, not, inl, inr, Option-cases, Option, none, some, Text,
  text_Eq, arith,
}
use x402_health_oracle.Crypto.{Crypto}
use x402_health_oracle.Double.{Double}
use x402_health_oracle.Rhythm.Session.{Sessions}
use x402_health_oracle.Seal.{SealData}
use x402_health_oracle.PrivacyPass.Oprf.{Suite}
use x402_health_oracle.Gateway.Cache.{Cache}
use x402_health_oracle.Gateway.Guard.{Guard}
use x402_health_oracle.Gateway.Rate.{or_zero}
use x402_health_oracle.Gateway.Request.{session_id_of}
use x402_health_oracle.Gateway.Enclave.{
  Session, KeyBytes, EnclaveState, no_session, served, Visit, try_redeem_token, is_consumed,
  claimed, seal_result, admit, enter, enclave,
}

module _ {c : Cache} {k : Crypto} where
  -- The state that `enclave` enters with.
  abbrev pub looked_up : EnclaveState c k → Text → ℕ → EnclaveState c k
  looked_up s sid now = record s {
    sessions = c.touch s.sessions sid now;
    sequences = c.touch s.sequences sid now;
  }

module _ {W : Type 0} {c : Cache} {k : Crypto} where
  -- The number of the last accepted packet.
  abbrev pub last_of : EnclaveState c k → Visit W → ℕ
  last_of s v = or_zero (c.get s.sequences (session_id_of v.request) v.now)

module _ {W : Type 0} ⦃d : Double W⦄ {c : Cache} {k : Crypto} (bytes : KeyBytes k) (suite : Suite)
    (read_header : Text → Option (SealData W)) (read_seq : Text → Option W) where
  enter_iff :
      (g : Guard c) (s : EnclaveState c k) (rhythms : Sessions W) (sid : Text) (entry : Session k)
      (last : ℕ) (v : Visit W)
      → ((enter bytes suite read_header read_seq g s rhythms sid entry last v).2 ≡ served) ↔ (
          (is_consumed (claimed read_seq v) last ≡ false)
          × ((seal_result {k = k} read_header rhythms entry (last + 1) v).valid ≡ true)
          × (((v.armed
                  && (not v.has_pow
                      && (seal_result {k = k} read_header rhythms entry
                          (last + 1)
                          v).requires_argon2))
                ≡ false)
              ⊎ ((try_redeem_token suite s.issuer v.request v.now v.later).1 ≡ some true)))
  unfolding enter admit
  enter_iff g s rhythms sid entry last v = ground arith

  pub enclave_found :
      (g : Guard c) (s : EnclaveState c k) (rhythms : Sessions W) (v : Visit W) (entry : Session k)
      → c.get s.sessions (session_id_of v.request) v.now ≡ some entry
      → enclave bytes suite read_header read_seq g s rhythms v
        ≡ enter bytes suite read_header read_seq g
            (looked_up s (session_id_of v.request) v.now)
            rhythms
            (session_id_of v.request)
            entry
            (last_of s v)
            v
  unfolding enclave
  enclave_found g s rhythms v entry e = rw (e, enclave)

  pub enclave-none :
      (g : Guard c) (s : EnclaveState c k) (rhythms : Sessions W) (v : Visit W)
      → c.get s.sessions (session_id_of v.request) v.now ≡ none
      → (enclave bytes suite read_header read_seq g s rhythms v).2 ≡ no_session
  unfolding enclave
  enclave-none g s rhythms v e = rw (e, enclave)

  -- The enclave is served exactly if the session is known, the seal claims no number that was
  -- consumed and is accepted for the next number, and, where the sniper is armed, no proof of
  -- work is held and the trust of the session is low, a token redeems.
  pub enclave_iff :
      (g : Guard c) (s : EnclaveState c k) (rhythms : Sessions W) (v : Visit W)
      → ((enclave bytes suite read_header read_seq g s rhythms v).2 ≡ served) ↔ (
          (entry : Session k) × (c.get s.sessions (session_id_of v.request) v.now ≡ some entry)
          × (is_consumed (claimed read_seq v) (last_of s v) ≡ false)
          × ((seal_result {k = k} read_header rhythms entry (last_of s v + 1) v).valid ≡ true)
          × (((v.armed
                  && (not v.has_pow
                      && (seal_result {k = k} read_header rhythms entry
                          (last_of s v + 1)
                          v).requires_argon2))
                ≡ false)
              ⊎ ((try_redeem_token suite s.issuer v.request v.now v.later).1 ≡ some true)))
  enclave_iff g s rhythms v =
      let sid = session_id_of v.request in
      (
        λ h. elim (Option-cases (c.get s.sessions sid v.now)) [
          | inl e ↦ cc (enclave-none g s rhythms v e)
          | inr (entry, e) ↦
              let (fresh, valid, work) =
                (enter_iff g (looked_up s sid v.now) rhythms sid entry (last_of s v) v).0
                  (rw (enclave_found g s rhythms v entry e) at h) in
              (entry, e, fresh, valid, work)
        ],
        λ (entry, e, fresh, valid, work). rw (enclave_found g s rhythms v entry e) (
            (enter_iff g (looked_up s sid v.now) rhythms sid entry (last_of s v) v).1
              (fresh, valid, work)),
      )
