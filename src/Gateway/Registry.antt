-- ===== src/Gateway/Registry.antt =====
-- The routes of gateway/server.ts that issue and redeem: `/api/zk`, `/api/health-proof`,
-- `/api/wallet/bind`, `/api/pat/issue`, and the sessions' keys that they sign with. A body without a
-- proof or without blinded elements is `none`; the fields of a binding are of any kind.
pub mod Binding
pub mod Sessions
use x402_health_oracle.Prelude.{
  ℕ, Bool, true, false, ◌&&◌, not, Option, none, some, List, [], ◌∷◌, if◌then◌else◌, Text, to_lower,
  text_Eq, ◌===◌,
}
use x402_health_oracle.Crypto.{Crypto}
use x402_health_oracle.Encoding.Hex.{Bytes}
use x402_health_oracle.Double.{Double, ◌⊑◌, ◌⊏◌, num}
use x402_health_oracle.Zk.{LayerResult, ZkProof, VerifyResult, Issued, issue_proof, redeem_proof}
use x402_health_oracle.Wallet.{
  Bindings, BindResult, compute_behavioral_hash, validate_signature_structure, bind_wallet,
}
use x402_health_oracle.Identity.{Signatures, is_address, verify_eip191}
use x402_health_oracle.PrivacyPass.Oprf.{Suite}
use x402_health_oracle.PrivacyPass.Issuer.{Issuer, issue_batch}
use x402_health_oracle.Gateway.Cache.{Cache, has}
use x402_health_oracle.Gateway.Request.{Request, session_id_of, is_blank}
use x402_health_oracle.Gateway.Enclave.{Session}

-- The measurements of the moment, as far as the layers read them.
pub record Measured (W : Type 0) : Type 0 where
  pub entropy : W
  pub variance : W
  pub spearman_rho : W
  -- liveRules.rho
  pub rho_threshold : W
  pub in_sniper_mode : Bool

abbrev pub key_or : {k : Crypto} → Option (Session k) → k.Secret → k.Secret
key_or none server_key = server_key
key_or (some entry) _ = entry.key

module _ (c : Cache) {k : Crypto} where
  -- `sessionKeys.get(sessionIdOf(req))?.key ?? serverDnaKey`
  unfoldable pub secret_for : c.Store (Session k) → k.Secret → Request → ℕ → k.Secret
  secret_for sessions server_key r now =
      key_or {k = k} (c.get sessions (session_id_of r) now) server_key

  module _ {W : Type 0} ⦃d : Double W⦄ where
    -- The layers that a proof of the client is issued for.
    unfoldable pub layers_of : c.Store (Session k) → Measured W → Text → Bool → ℕ → LayerResult
    layers_of sessions m ip has_pow now = record {
      l0_pqc = has c sessions ip now;
      l1_gpu_ua = true;
      l2_frankenstein = true;
      l3_spearman = m.rho_threshold ⊑ m.spearman_rho;
      l4_variance = (num 2 ⊑ m.variance) && (m.variance ⊏ num 10);
      l5_argon2 = has_pow;
      l6_entropy = num 1 ⊏ m.entropy;
      l7_jitter = m.in_sniper_mode;
    }

    -- `/api/zk/issue`; the salt is random.
    unfoldable pub zk_issue :
        c.Store (Session k)
        → k.Secret
        → Measured W
        → Request
        → Text
        → Bool
        → Bytes
        → ℕ
        → Issued
        → Issued × ZkProof
    zk_issue sessions server_key m r ip has_pow random now issued =
        issue_proof k (secret_for sessions server_key r now) (layers_of sessions m ip has_pow now)
          ip random now now issued

    -- `/api/health-proof` is signed with the server's key, and never claims a proof of work.
    unfoldable pub health_proof :
        c.Store (Session k) → k.Secret → Measured W → Text → Bytes → ℕ → Issued → Issued × ZkProof
    health_proof sessions server_key m ip random now issued =
        issue_proof k server_key (layers_of sessions m ip false now) ip random now now issued

  -- `/api/zk/verify`; a body without a proof is refused.
  unfoldable pub zk_verify :
      c.Store (Session k)
      → k.Secret
      → Request
      → Option ZkProof
      → ℕ
      → Issued
      → Issued × Option (VerifyResult × Bool)
  zk_verify sessions server_key r none now issued = (issued, none)
  zk_verify sessions server_key r (some proof) now issued =
      let (issued', result, replay) =
        redeem_proof k (secret_for sessions server_key r now) proof now issued in
      (issued', some (result, replay))

pub data BindReply : Type 0 where
  -- an exception
  thrown : BindReply
  missing_fields : BindReply
  invalid_wallet_format : BindReply
  invalid_signature_format : BindReply
  signature_invalid : BindReply
  bound : Text → BindResult → BindReply

-- A field that is there and no empty text.
abbrev pub given : Option Text → Option Text
given none = none
given (some []) = none
given (some (x ∷ s)) = some (x ∷ s)

-- A field of the body of `/api/wallet/bind`: missing (or null, false, 0), a text, or another value
-- that counts as true, by the text that it is converted to, `none` where the conversion throws.
pub data BodyField : Type 0 where
  absent : BodyField
  text : Text → BodyField
  other : Option Text → BodyField

abbrev pub is_there : BodyField → Bool
is_there absent = false
is_there (text s) = not (is_blank s)
is_there (other _) = true

-- The text that the field is; `none` where a method of texts throws.
abbrev pub text_of : BodyField → Option Text
text_of absent = none
text_of (text s) = some s
text_of (other _) = none

-- The text that the field is converted to.
abbrev pub form_of : BodyField → Option Text
form_of absent = none
form_of (text s) = some s
form_of (other form) = form

abbrev pub is_signer : Option Text → Text → Bool
is_signer none wallet = false
is_signer (some recovered) wallet = recovered === to_lower wallet

module _ (k : Crypto) {W : Type 0} ⦃d : Double W⦄ where
  unfoldable pub bind_hash : k.Secret → Measured W → Text
  bind_hash secret m = compute_behavioral_hash k secret m.entropy m.variance m.spearman_rho

module _ (k : Crypto) {W : Type 0} ⦃d : Double W⦄ (signatures : Signatures) where
  -- From the recovery of the signer on; without a text `wallet.toLowerCase` throws, also where no
  -- signer is found.
  unfoldable pub bind_signed :
      Bindings → k.Secret → Measured W → Option Text → Text → Text → Text → ℕ → Bindings × BindReply
  bind_signed b secret m none signature challenge ip now = (b, thrown)
  bind_signed b secret m (some wallet) signature challenge ip now =
      let hash = bind_hash k secret m in
      let (b', result) = bind_wallet k b wallet hash ip now in
      if not (is_signer (verify_eip191 signatures challenge signature) wallet)
      then (b, signature_invalid)
      else (b', bound hash result)

  -- From the form of the signature on.
  unfoldable pub bind_with :
      Bindings
      → k.Secret
      → Measured W
      → Option Text
      → Option Text
      → Option Text
      → Text
      → ℕ
      → Bindings × BindReply
  bind_with b secret m wallet none challenge ip now = (b, thrown)
  bind_with b secret m wallet (some signature) challenge ip now =
      if not (validate_signature_structure signature)
      then (b, invalid_signature_format)
      else elim challenge [
        | none ↦ (b, thrown)
        | some t ↦ bind_signed b secret m wallet signature t ip now
      ]

  -- From the form of the wallet on: the test converts it.
  unfoldable pub bind_given :
      Bindings
      → k.Secret
      → Measured W
      → BodyField
      → BodyField
      → BodyField
      → Text
      → ℕ
      → Bindings × BindReply
  bind_given b secret m wallet signature challenge ip now = elim (form_of wallet) [
    | none ↦ (b, thrown)
    | some form ↦
        if not (is_address form)
        then (b, invalid_wallet_format)
        else bind_with b secret m (text_of wallet) (text_of signature) (form_of challenge) ip now
  ]

  -- `/api/wallet/bind`
  unfoldable pub bind_route :
      Bindings
      → k.Secret
      → Measured W
      → BodyField
      → BodyField
      → BodyField
      → Text
      → ℕ
      → Bindings × BindReply
  bind_route b secret m wallet signature challenge ip now =
      if is_there wallet && (is_there signature && is_there challenge)
      then bind_given b secret m wallet signature challenge ip now
      else (b, missing_fields)

pub data PatReply : Type 0 where
  interrogation_required : PatReply
  blinded_required : PatReply
  issue_failed : PatReply
  evaluated : List Text → PatReply

-- `/api/pat/issue`; a body without an array is `none`.
unfoldable pub pat_issue : Suite → Issuer → Bool → Bool → Option (List Text) → Issuer × PatReply
pat_issue suite i armed has_pow body =
    if armed && not has_pow then (i, interrogation_required) else elim body [
      | none ↦ (i, blinded_required)
      | some blinded ↦ elim (issue_batch suite i blinded) [
        | none ↦ (i, issue_failed)
        | some (i', elements) ↦ (i', evaluated elements)
      ]
    ]
