-- ===== src/Identity.antt =====
-- gateway/src/services/agentIdentity.ts. secp256k1, Keccak-256, SHA-256 and ML-DSA-65 are those of
-- @noble: the parameter `Signatures`. Reputation and expiry come from a request and are doubles;
-- the agent id, the issuer and the nonce are texts.
pub mod Credential
pub mod Decision
mod Tests
use x402_health_oracle.Prelude.{
  ℕ, ◌+◌, ◌*◌, ◌-◌, ◌%◌, Bool, true, false, ◌&&◌, ◌||◌, not, Option, none, some, List, [], ◌∷◌,
  ◌++◌, ◌==◌, leb, if◌then◌else◌, Text, codes, to_lower, starts_with, take, drop, length, all,
  text_Eq, ◌===◌, text_eq,
}
use x402_health_oracle.Encoding.Hex.{Bytes, to_hex, from_hex, is_hex, nibble}
use x402_health_oracle.Encoding.Decimal.{to_decimal}
use x402_health_oracle.Encoding.Utf8.{utf8}
use x402_health_oracle.Double.{Double, ◌⊑◌, ◌⊏◌, num}

pub record Signatures : Type 0 where
  pub keccak_256 : Bytes → Bytes
  pub sha256 : Bytes → Bytes
  -- The public key, 65 bytes, that recovers from r and s as hexadecimal text, the recovery bit and
  -- the digest; `none` where the library throws.
  pub recover_public_key : Text → ℕ → Bytes → Option Bytes
  -- `ml_dsa65.verify(signature, message, publicKey)`; `none` where it throws.
  pub ml_dsa65_verify : Bytes → Bytes → Bytes → Option Bool

-- `'0x' + Buffer.from(b).toString('hex')`
abbrev pub to_0x_hex : Bytes → Text
to_0x_hex bytes = codes "0x" ++ to_hex bytes

abbrev pub strip_0x : Text → Text
strip_0x s = if starts_with s (codes "0x") then drop 2 s else s

-- `hexToBytes`, which throws on what is no hexadecimal text
unfoldable pub hex_to_bytes : Text → Option Bytes
hex_to_bytes hex =
    let h = strip_0x hex in
    if not (length h % 2 == 0) || not (is_hex h) then none else some (from_hex h)

-- `parseInt` of two characters, base 16, where its value can matter: `none` is a NaN or a negative
-- number. White space and a plus sign may lead, and reading stops at the first other character.
abbrev digit_or_none : Option ℕ → Option ℕ → Option ℕ
digit_or_none none low = none
digit_or_none (some h) none = some h
digit_or_none (some h) (some l) = some (h * 16 + l)

abbrev zero_or_none : Option ℕ → Option ℕ
zero_or_none none = none
zero_or_none (some n) = if n == 0 then some 0 else none

abbrev is_space : ℕ → Bool
is_space c =
    c == 32
    || (leb 9 c && leb c 13)
    || c == 160
    || c == 0x1680
    || (leb 0x2000 c && leb c 0x200a)
    || c == 0x2028
    || c == 0x2029
    || c == 0x202f
    || c == 0x205f
    || c == 0x3000
    || c == 0xfeff

unfoldable pub parse_hex_pair : ℕ → ℕ → Option ℕ
parse_hex_pair x y =
    if is_space x || x == b'+'
    then nibble y
    else if x == b'-'
    then zero_or_none (nibble y)
    else if x == b'0' && (y == b'x' || y == b'X')
    then none
    else digit_or_none (nibble x) (nibble y)

unfoldable pub recovery_bit : Text → Option ℕ
recovery_bit (x ∷ y ∷ []) = elim (parse_hex_pair x y) [
  | none ↦ none
  | some v ↦ let v' = if leb 27 v then v - 27 else v in if v' == 0 || v' == 1 then some v' else none
]
recovery_bit _ = none

-- The EIP-191 prefix, whose first byte is 0x19.
abbrev pub eip191_prefix : Text
eip191_prefix = 0x19 ∷ (codes "Ethereum Signed Message:" ++ 10 ∷ [])

pub record AgentCredential {ℓ} (W : Type ℓ) : Type ℓ where
  pub agent_id : Text
  pub issuer : Text
  pub reputation : W
  pub expiry : W
  pub nonce : Text

pub data CheckReason : Type 0 where
  bad_agent_id bad_issuer bad_reputation expired bad_signature signer_mismatch untrusted_issuer
        bad_encoding bad_publickey ok :
      CheckReason

pub record CredentialCheck {ℓ} (W : Type ℓ) : Type ℓ where
  pub valid : Bool
  pub reason : CheckReason
  pub agent_id : Option Text
  pub reputation : Option W
  pub signer : Option Text

-- `/^0x[0-9a-fA-F]{40}$/`
unfoldable pub is_address : Text → Bool
is_address s = starts_with s (codes "0x") && (length s == 42 && is_hex (drop 2 s))

abbrev is_lower_hex_digit : ℕ → Bool
is_lower_hex_digit c = (leb b'0' c && leb c b'9') || (leb b'a' c && leb c b'f')

-- `/^pq:[0-9a-f]{40}$/`
unfoldable pub is_fingerprint : Text → Bool
is_fingerprint s =
    starts_with s (codes "pq:") && (length s == 43 && all is_lower_hex_digit (drop 3 s))

abbrev pub is_member : Text → List Text → Bool
is_member a [] = false
is_member a (b ∷ bs) = a === b || is_member a bs

-- `opts.trustedIssuers && !opts.trustedIssuers.has(signer)`
abbrev pub is_untrusted : Option (List Text) → Text → Bool
is_untrusted none signer = false
is_untrusted (some trusted) signer = not (is_member signer trusted)

abbrev pub is_blank : Text → Bool
is_blank [] = true
is_blank (_ ∷ _) = false

abbrev pub ml_dsa_publickey_bytes : ℕ
ml_dsa_publickey_bytes = 1952

abbrev pub ml_dsa_signature_bytes : ℕ
ml_dsa_signature_bytes = 3309

module _ (g : Signatures) where
  unfoldable pub pub_to_address : Bytes → Text
  pub_to_address pub65 = let h = g.keccak_256 (drop 1 pub65) in to_0x_hex (drop (length h - 20) h)

  unfoldable pub eip191_hash : Text → Bytes
  eip191_hash message =
      let msg = utf8 message in
      let prefix = utf8 (eip191_prefix ++ to_decimal (length msg)) in g.keccak_256 (prefix ++ msg)

  unfoldable pub recover_address : Bytes → Text → Option Text
  recover_address digest signature_hex =
      let hex = strip_0x signature_hex in
      if not (length hex == 130) then none else elim (recovery_bit (drop 128 hex)) [
        | none ↦ none
        | some v ↦ elim (g.recover_public_key (take 128 hex) v digest) [
          | none ↦ none
          | some key ↦ some (pub_to_address key)
        ]
      ]

  unfoldable pub verify_eip191 : Text → Text → Option Text
  verify_eip191 message signature_hex = recover_address (eip191_hash message) signature_hex

  -- `'pq:' + Buffer.from(sha256(publicKey)).toString('hex').slice(0, 40)`
  unfoldable pub ml_dsa_fingerprint : Bytes → Text
  ml_dsa_fingerprint public_key = codes "pq:" ++ take 40 (to_hex (g.sha256 public_key))

abbrev pub newline : Text
newline = 10 ∷ []

module _ {ℓ} {W : Type ℓ} ⦃d : Double W⦄ where
  abbrev pub refuse : CheckReason → Option Text → CredentialCheck W
  refuse reason signer = record {
    valid = false;
    reason = reason;
    agent_id = none;
    reputation = none;
    signer = signer;
  }

  abbrev pub accept : AgentCredential W → Text → CredentialCheck W
  accept c signer = record {
    valid = true;
    reason = ok;
    agent_id = some c.agent_id;
    reputation = some c.reputation;
    signer = some signer;
  }

  abbrev pub reputation_in_range : W → Bool
  reputation_in_range x = not (not (d.is_finite x) || (x ⊏ num 0) || (num 10000 ⊏ x))

  abbrev pub is_current : W → ℕ → Bool
  is_current expiry now = not (not (d.is_finite expiry) || (expiry ⊑ num now))

module _ {ℓ} {W : Type ℓ} ⦃d : Double W⦄ (g : Signatures) where
  unfoldable pub credential_message : AgentCredential W → Text
  credential_message c =
      codes "SiliconDNA Agent Credential v1"
      ++ newline
      ++ codes "agentId="
      ++ c.agent_id
      ++ newline
      ++ codes "issuer="
      ++ to_lower c.issuer
      ++ newline
      ++ codes "reputation="
      ++ d.print c.reputation
      ++ newline
      ++ codes "expiry="
      ++ d.print c.expiry
      ++ newline
      ++ codes "nonce="
      ++ c.nonce

  unfoldable pub verify_agent_credential :
      AgentCredential W → Text → Option (List Text) → ℕ → CredentialCheck W
  verify_agent_credential c signature_hex trusted now =
      if is_blank c.agent_id
      then refuse bad_agent_id none
      else if not (is_address c.issuer)
      then refuse bad_issuer none
      else if not (reputation_in_range c.reputation)
      then refuse bad_reputation none
      else if not (is_current c.expiry now)
      then refuse expired none
      else elim (verify_eip191 g (credential_message c) signature_hex) [
        | none ↦ refuse bad_signature none
        | some signer ↦
            if not (signer === to_lower c.issuer)
            then refuse signer_mismatch (some signer)
            else if is_untrusted trusted signer
            then refuse untrusted_issuer (some signer)
            else accept c signer
      ]

  -- From the decoded key and signature on.
  unfoldable pub verify_ml_dsa_bytes :
      AgentCredential W → Bytes → Bytes → Option (List Text) → CredentialCheck W
  verify_ml_dsa_bytes c signature public_key trusted =
      let fp = ml_dsa_fingerprint g public_key in
      if not (length public_key == ml_dsa_publickey_bytes)
      then refuse bad_publickey none
      else if not (length signature == ml_dsa_signature_bytes)
      then refuse bad_signature none
      else if not (fp === c.issuer)
      then refuse signer_mismatch (some fp)
      else elim (g.ml_dsa65_verify signature (utf8 (credential_message c)) public_key) [
        | none ↦ refuse bad_signature none
        | some false ↦ refuse bad_signature none
        | some true ↦
            if is_untrusted trusted fp then refuse untrusted_issuer (some fp) else accept c fp
      ]

  unfoldable pub verify_ml_dsa_credential :
      AgentCredential W → Text → Text → Option (List Text) → ℕ → CredentialCheck W
  verify_ml_dsa_credential c signature_hex public_key_hex trusted now =
      if is_blank c.agent_id
      then refuse bad_agent_id none
      else if not (is_fingerprint c.issuer)
      then refuse bad_issuer none
      else if not (reputation_in_range c.reputation)
      then refuse bad_reputation none
      else if not (is_current c.expiry now)
      then refuse expired none
      else elim (hex_to_bytes public_key_hex) [
        | none ↦ refuse bad_encoding none
        | some public_key ↦ elim (hex_to_bytes signature_hex) [
          | none ↦ refuse bad_encoding none
          | some signature ↦ verify_ml_dsa_bytes c signature public_key trusted
        ]
      ]
