-- ===== src/Gateway/Enclave/Replay.antt =====
-- No packet is accepted twice.
use x402_health_oracle.Prelude.{
  ℕ, ◌+◌, ◌≤◌, ◌<◌, lt→ltb, ◌≡◌, ◌⊎◌, refl, ap, Bool, true, false, inl, inr, Option-cases, Option,
  none, some, [], ◌∷◌, Text, text_Eq, arith,
}
use x402_health_oracle.Crypto.{Crypto}
use x402_health_oracle.Double.{Double, num}
use x402_health_oracle.Double.Laws.{IsOrdered}
use x402_health_oracle.Rhythm.Session.{Sessions}
use x402_health_oracle.Seal
use x402_health_oracle.Seal.{SealData, verify_entropy_seal}
use x402_health_oracle.Seal.Acceptance.{verify_entropy_seal_checks}
use x402_health_oracle.PrivacyPass.Oprf.{Suite}
use x402_health_oracle.Gateway.Cache.{Cache, IsCache}
use x402_health_oracle.Gateway.Guard.{Guard}
use x402_health_oracle.Gateway.Rate.{or_zero}
use x402_health_oracle.Gateway.Request.{session_id_of, header_text, default_session}
use x402_health_oracle.Gateway.Enclave.{
  Session, KeyBytes, EnclaveState, EnclaveReply, no_session, replay_attack, seal_invalid,
  interrogation_required, failed, served, Visit, after_token, is_consumed, seal_of, claimed,
  seal_result, ratchet, admit, enter, enclave, text_or_blank,
}
use x402_health_oracle.Gateway.Enclave.Served.{looked_up, last_of, enclave_found, enclave-none}

-- The replies to a packet whose seal was accepted.
abbrev pub is_accepted : EnclaveReply → Bool
is_accepted no_session = false
is_accepted replay_attack = false
is_accepted seal_invalid = false
is_accepted interrogation_required = true
is_accepted failed = true
is_accepted served = true

is_accepted-after_token : (token : Option Bool) → is_accepted (after_token token) ≡ true
is_accepted-after_token none = refl
is_accepted-after_token (some true) = refl
is_accepted-after_token (some false) = refl

header_text_lem :
    (seal : Option Text) (header : Text)
    → Seal.header_text seal ≡ some header
    → text_or_blank seal ≡ header
header_text_lem none header h = cc
header_text_lem (some []) header h = cc
header_text_lem (some (x ∷ s)) header h = ground arith

module _ {W : Type 0} ⦃d : Double W⦄ (k : Crypto) (read_header : Text → Option (SealData W)) where
  -- An accepted seal can be read, and has the index for its number.
  accepted_number :
      (rhythms : Sessions W) (id : Text) (seal noise : Option Text) (index : ℕ) (secret : k.Secret)
      (now : ℕ)
      → (verify_entropy_seal k read_header rhythms id seal noise index secret now).valid ≡ true
      → (s : SealData W) × (read_header (text_or_blank seal) ≡ some s) × (s.seq ≡ some index)
  unfolding verify_entropy_seal
  accepted_number rhythms id seal noise index secret now h =
      elim (Option-cases (Seal.header_text seal)) [
        | inl e ↦ absurd (no_header e h)
        | inr (header, e) ↦ elim (Option-cases (read_header header)) [
          | inl e' ↦ absurd (no_data header e e' h)
          | inr (s, e') ↦ (
            s,
            rw (header_text_lem seal header e) e',
            ((verify_entropy_seal_checks k read_header rhythms id seal noise index secret now header
                  s e e').0
                h).1,
          )
        ]
      ]
    where
      no_header :
          Seal.header_text seal ≡ none
          → (verify_entropy_seal k read_header rhythms id seal noise index secret now).valid ≡ true
          → ⊥
      no_header e h = cc (rw (e, verify_entropy_seal) at h)

      no_data :
          (header : Text)
          → Seal.header_text seal ≡ some header
          → read_header header ≡ none
          → (verify_entropy_seal k read_header rhythms id seal noise index secret now).valid ≡ true
          → ⊥
      no_data header e e' h = cc (rw (e, verify_entropy_seal, e') at h)

module _ {W : Type 0} ⦃d : Double W⦄ {c : Cache} {k : Crypto} (bytes : KeyBytes k) (suite : Suite)
    (read_header : Text → Option (SealData W)) (read_seq : Text → Option W) where
  enter_accepts :
      (g : Guard c) (s : EnclaveState c k) (rhythms : Sessions W) (sid : Text) (entry : Session k)
      (last : ℕ) (v : Visit W)
      → is_accepted (enter bytes suite read_header read_seq g s rhythms sid entry last v).2 ≡ true
      → ((seal_result {k = k} read_header rhythms entry (last + 1) v).valid ≡ true)
        × ((enter bytes suite read_header read_seq g s rhythms sid entry last v).1.sequences
            ≡ c.set s.sequences sid (last + 1) v.now)
  unfolding enter admit ratchet
  enter_accepts g s rhythms sid entry last v h = ground arith

  consumed_replay :
      (g : Guard c) (s : EnclaveState c k) (rhythms : Sessions W) (sid : Text) (entry : Session k)
      (last : ℕ) (v : Visit W)
      → is_consumed (claimed read_seq v) last ≡ true
      → (enter bytes suite read_header read_seq g s rhythms sid entry last v).2 ≡ replay_attack
  unfolding enter
  consumed_replay g s rhythms sid entry last v h = rw h

  enclave_accepts :
      (reads : (h : Text) (data_ : SealData W) (n : ℕ)
        → read_header h ≡ some data_
        → data_.seq ≡ some n
        → read_seq h ≡ some (num n))
      (g : Guard c) (s : EnclaveState c k) (rhythms : Sessions W) (v : Visit W)
      → is_accepted (enclave bytes suite read_header read_seq g s rhythms v).2 ≡ true
      → (claimed read_seq v ≡ some (num (last_of s v + 1)))
        × ((enclave bytes suite read_header read_seq g s rhythms v).1.sequences
            ≡ c.set
                (c.touch s.sequences (session_id_of v.request) v.now)
                (session_id_of v.request)
                (last_of s v + 1)
                v.now)
  enclave_accepts reads g s rhythms v h =
      let sid = session_id_of v.request in
      let last = last_of s v in
      elim (Option-cases (c.get s.sessions sid v.now)) [
        | inl e ↦
            cc (ap is_accepted (enclave-none bytes suite read_header read_seq g s rhythms v e))
        | inr (entry, e) ↦
            let same = enclave_found bytes suite read_header read_seq g s rhythms v entry e in
            let (valid, stored) =
              enter_accepts g (looked_up s sid v.now) rhythms sid entry last v (rw same at h) in
            let (data_, read, seq) =
              accepted_number k read_header rhythms default_session (seal_of v)
                (header_text v.request "x-silicon-dna-noise") (last + 1) entry.key v.now valid in
            (reads (text_or_blank (seal_of v)) data_ (last + 1) read seq, rw same stored)
      ]

  enclave_refuses :
      (ordered : IsOrdered W) (g : Guard c) (s : EnclaveState c k) (rhythms : Sessions W)
      (v : Visit W) (n : ℕ)
      → 0 < n
      → last_of s v ≡ n
      → claimed read_seq v ≡ some (num n)
      → let reply = (enclave bytes suite read_header read_seq g s rhythms v).2 in
        (reply ≡ no_session) ⊎ (reply ≡ replay_attack)
  enclave_refuses ordered g s rhythms v n pos last number =
      let sid = session_id_of v.request in
      elim (Option-cases (c.get s.sessions sid v.now)) [
        | inl e ↦ inl (enclave-none bytes suite read_header read_seq g s rhythms v e)
        | inr (entry, e) ↦
            let reused : is_consumed (claimed read_seq v) (last_of s v) ≡ true =
              rw (number, last, lt→ltb 0 n pos)
                (ordered.ratio_mono n n 1 (omega arith) (omega arith)) in
            inr (
              rw (enclave_found bytes suite read_header read_seq g s rhythms v entry e) (
                consumed_replay g (looked_up s sid v.now) rhythms sid entry (last_of s v) v reused))
      ]

  -- A packet is accepted once: after one whose seal was accepted, a packet of the same session
  -- with the same seal, at any time until the session's number is forgotten and from whatever
  -- address, finds no session or is called a replay. It takes the laws of the caches and of
  -- order, and that both readers of the seal's header find the same number.
  pub enclave_no_replay :
      (laws : IsCache c) (ordered : IsOrdered W)
      (reads : (h : Text) (data_ : SealData W) (n : ℕ)
        → read_header h ≡ some data_
        → data_.seq ≡ some n
        → read_seq h ≡ some (num n))
      (g g' : Guard c) (s : EnclaveState c k) (rhythms rhythms' : Sessions W) (v v' : Visit W)
      → is_accepted (enclave bytes suite read_header read_seq g s rhythms v).2 ≡ true
      → session_id_of v'.request ≡ session_id_of v.request
      → seal_of v' ≡ seal_of v
      → v.now ≤ v'.now
      → v'.now ≤ v.now + c.ttl s.sequences
      → let s' = (enclave bytes suite read_header read_seq g s rhythms v).1 in
        let reply = (enclave bytes suite read_header read_seq g' s' rhythms' v').2 in
        (reply ≡ no_session) ⊎ (reply ≡ replay_attack)
  enclave_no_replay laws ordered reads g g' s rhythms rhythms' v v' h same seal after in_time =
      let sid = session_id_of v.request in
      let last = last_of s v in
      let s' = (enclave bytes suite read_header read_seq g s rhythms v).1 in
      let (number, stored) = enclave_accepts reads g s rhythms v h in
      let found : last_of s' v' ≡ last + 1 =
        rw (same, stored)
          (ap or_zero (
            laws.get-set_self (c.touch s.sequences sid v.now) sid (last + 1) v.now v'.now after
              (omega (arith, laws.ttl-touch s.sequences sid v.now)))) in
      enclave_refuses ordered g' s' rhythms' v' (last + 1) (omega arith) found (rw seal number)
