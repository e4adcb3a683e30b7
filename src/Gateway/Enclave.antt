-- ===== src/Gateway/Enclave.antt =====
-- The protected routes of gateway/server.ts, behind the two middlewares: `/api/enclave` with the
-- sessions, the sequence numbers and the ratchet of the keys, and `/api/wallet`. Whether a proof of
-- work of the address is held is an argument. The reader of the seal's header (base64 and JSON) is a
-- parameter, as in Seal; `read_seq` is its sequence, if that is a number.
pub mod Served
pub mod Replay
use x402_health_oracle.Prelude.{
  ℕ, ◌+◌, Bool, true, false, ◌&&◌, not, Option, none, some, List, [], ◌∷◌, ◌++◌, leb, ltb,
  if◌then◌else◌, Text, codes, map, keep,
}
use x402_health_oracle.Crypto.{Crypto}
use x402_health_oracle.Encoding.Hex.{Bytes}
use x402_health_oracle.Encoding.Decimal.{to_decimal}
use x402_health_oracle.Double.{Double, ◌⊑◌, num, sum}
use x402_health_oracle.Rhythm.Session.{Sessions}
use x402_health_oracle.Seal.{SealData, SealResult, verify_entropy_seal}
use x402_health_oracle.PrivacyPass.Oprf.{Suite}
use x402_health_oracle.PrivacyPass.Issuer.{Issuer, Reply, redeem}
use x402_health_oracle.PrivacyPass.Issuer as Token
use x402_health_oracle.Gateway.Cache.{Cache}
use x402_health_oracle.Gateway.Guard.{Guard, ban, count_dropped}
use x402_health_oracle.Gateway.Rate.{or_zero}
use x402_health_oracle.Gateway.Request.{
  Request, header_text, session_id_of, default_session, split_commas,
}

module _ (k : Crypto) where
  pub record Session : Type 0 where
    pub key : k.Secret
    pub counter : ℕ

  -- A key as its bytes.
  pub record KeyBytes : Type 0 where
    pub to_bytes : k.Secret → Bytes
    pub of_bytes : Bytes → k.Secret

module _ (c : Cache) (k : Crypto) where
  pub record EnclaveState : Type 0 where
    pub sessions : c.Store (Session k)
    pub sequences : c.Store ℕ
    pub ratchet_cycles : ℕ
    pub issuer : Issuer

pub data EnclaveReply : Type 0 where
  no_session : EnclaveReply
  replay_attack : EnclaveReply
  seal_invalid : EnclaveReply
  interrogation_required : EnclaveReply
  -- the exception of a redemption
  failed : EnclaveReply
  served : EnclaveReply

-- What a request brings besides its headers.
pub record Visit (W : Type 0) : Type 0 where
  pub ip : Text
  pub request : Request
  pub now : ℕ
  pub later : ℕ
  pub random : W
  pub armed : Bool
  pub has_pow : Bool

abbrev pub ratchet_after : ℕ
ratchet_after = 50

-- `tryRedeemToken`: the state of the issuer, and the answer.
abbrev pub try_redeem_both :
    Suite → Issuer → Option Text → Option Text → ℕ → ℕ → Issuer × Option Bool
try_redeem_both s i none output now later = (i, some false)
try_redeem_both s i (some nonce) none now later = (i, some false)
try_redeem_both s i (some nonce) (some output) now later =
    let (i', reply) = redeem s i nonce output now later in
    (
      i',
      elim reply [ Token.valid ↦ some true | Token.refused _ ↦ some false | Token.thrown ↦ none ],
    )

unfoldable pub try_redeem_token : Suite → Issuer → Request → ℕ → ℕ → Issuer × Option Bool
unfolding redeem
try_redeem_token s i r now later =
    try_redeem_both s i (header_text r "x-privacy-pass-token")
      (header_text r "x-privacy-pass-output") now later

-- The reply to a redemption that was asked for.
abbrev pub after_token : Option Bool → EnclaveReply
after_token none = failed
after_token (some true) = served
after_token (some false) = interrogation_required

unfoldable pub replay_reason : Text → ℕ → Text
replay_reason seq last =
    codes "REPLAY_ATTACK seq=" ++ (seq ++ (codes " ≤ consumed=" ++ to_decimal last))

abbrev pub text_or_blank : Option Text → Text
text_or_blank none = []
text_or_blank (some s) = s

module _ {W : Type 0} ⦃d : Double W⦄ where
  -- `noiseHeader.split(',').map(Number).filter(isFinite).reduce((a, b) => a + b, 0)`
  unfoldable pub noise_sum : Option Text → W → W
  unfolding split_commas
  noise_sum none random = random
  noise_sum (some []) random = random
  noise_sum (some (x ∷ noise)) random =
      sum (keep d.is_finite (map d.parse (split_commas (x ∷ noise))))

  -- The seal claims a number that was consumed: `claimedSeq <= lastSeq`, once a packet was accepted.
  abbrev pub is_consumed : Option W → ℕ → Bool
  is_consumed none last = false
  is_consumed (some seq) last = ltb 0 last && (seq ⊑ num last)

  abbrev pub print_seq : Option W → Text
  print_seq none = []
  print_seq (some seq) = d.print seq

  module _ {k : Crypto} (bytes : KeyBytes k) where
    unfoldable pub next_key : k.Secret → Option Text → W → k.Secret
    unfolding noise_sum
    next_key key noise random =
        bytes.of_bytes (k.sha256 (bytes.to_bytes key ++ d.print (noise_sum noise random)))

  module _ {c : Cache} {k : Crypto} (bytes : KeyBytes k) where
    -- One more packet of the session; the fiftieth turns the key.
    unfoldable pub ratchet : EnclaveState c k → Text → Session k → Visit W → EnclaveState c k
    ratchet s sid entry v =
        let noise = header_text v.request "x-silicon-dna-noise" in
        if leb ratchet_after (entry.counter + 1)
        then record s {
          sessions =
              c.set s.sessions sid
                (record { key = next_key bytes entry.key noise v.random; counter = 0 }) v.now;
          ratchet_cycles = s.ratchet_cycles + 1;
        }
        else record s {
          sessions = c.mutate s.sessions sid (λ e. record e { counter = e.counter + 1 });
        }

  abbrev pub seal_of : Visit W → Option Text
  seal_of v = header_text v.request "x-silicon-dna-seal"

  -- What the seal says of its number.
  abbrev pub claimed : (Text → Option W) → Visit W → Option W
  claimed read_seq v = read_seq (text_or_blank (seal_of v))

  -- `verifyEntropySeal('default', …)`
  abbrev pub seal_result :
      {k : Crypto}
      → (Text → Option (SealData W))
      → Sessions W
      → Session k
      → ℕ
      → Visit W
      → SealResult W
  seal_result {k} read_header rhythms entry index v =
      verify_entropy_seal k read_header rhythms default_session (seal_of v)
        (header_text v.request "x-silicon-dna-noise") index entry.key v.now

  module _ {c : Cache} {k : Crypto} (bytes : KeyBytes k) (suite : Suite)
      (read_header : Text → Option (SealData W)) (read_seq : Text → Option W) where
    -- From an accepted seal on.
    unfoldable pub admit :
        EnclaveState c k → Text → Session k → ℕ → Bool → Visit W → EnclaveState c k × EnclaveReply
    admit s sid entry index requires_argon2 v =
        let turned = ratchet bytes s sid entry v in
        let advanced = record turned { sequences = c.set turned.sequences sid index v.now } in
        let (issuer, token) = try_redeem_token suite s.issuer v.request v.now v.later in
        if v.armed && (not v.has_pow && requires_argon2)
        then (record advanced { issuer = issuer }, after_token token)
        else (advanced, served)

    -- From the session on; `last` is the number of the last accepted packet.
    unfoldable pub enter :
        Guard c
        → EnclaveState c k
        → Sessions W
        → Text
        → Session k
        → ℕ
        → Visit W
        → Guard c × EnclaveState c k × EnclaveReply
    enter g s rhythms sid entry last v =
        let result = seal_result {k = k} read_header rhythms entry (last + 1) v in
        let (s', reply) = admit s sid entry (last + 1) result.requires_argon2 v in
        if is_consumed (claimed read_seq v) last
        then (
          count_dropped (ban g v.ip (replay_reason (print_seq (claimed read_seq v)) last) v.now),
          s,
          replay_attack,
        )
        else if result.valid
        then (g, s', reply)
        else (count_dropped g, s, seal_invalid)

    -- `/api/enclave`
    unfoldable pub enclave :
        Guard c
        → EnclaveState c k
        → Sessions W
        → Visit W
        → Guard c × EnclaveState c k × EnclaveReply
    enclave g s rhythms v =
        let sid = session_id_of v.request in
        let used = record s { sessions = c.touch s.sessions sid v.now } in
        let last = or_zero (c.get s.sequences sid v.now) in
        elim (c.get s.sessions sid v.now) [
          | none ↦ (g, used, no_session)
          | some entry ↦
              enter g (record used { sequences = c.touch s.sequences sid v.now }) rhythms sid entry
                last v
        ]

-- `/api/wallet`
unfoldable pub wallet_route : Suite → Issuer → Request → Bool → Bool → ℕ → ℕ → Issuer × EnclaveReply
wallet_route suite i r armed has_pow now later =
    let (i', token) = try_redeem_token suite i r now later in
    if armed && not has_pow then (i', after_token token) else (i, served)
