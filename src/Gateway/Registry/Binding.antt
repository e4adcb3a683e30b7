-- ===== src/Gateway/Registry/Binding.antt =====
-- Which wallets are bound.
use x402_health_oracle.Prelude.{
  ℕ, ◌≡◌, refl, ◌↔◌, ◌⊎◌, Bool, true, false, ◌&&◌, not, Option, none, some, [], ◌∷◌, Text, take,
  to_lower, text_Eq, ◌===◌, if◌then◌else◌, arith, inl, inr,
}
use x402_health_oracle.Crypto.{Crypto}
use x402_health_oracle.Encoding.Hex.{to_hex}
use x402_health_oracle.Double.{Double}
use x402_health_oracle.Wallet.{Bindings, WalletBinding, validate_signature_structure, lookup_wallet}
use x402_health_oracle.Wallet.Lookup.{lookup_wallet-bind_wallet}
use x402_health_oracle.Identity.{Signatures, is_address, verify_eip191}
use x402_health_oracle.Gateway.Request.{or_empty, is_blank}
use x402_health_oracle.Gateway.Registry.{
  Measured, BindReply, missing_fields, invalid_wallet_format, invalid_signature_format,
  signature_invalid, bound, thrown, is_signer, bind_hash, bind_signed, bind_with, bind_given,
  bind_route, BodyField, absent, text, other, is_there, text_of, form_of,
}

abbrev pub is_bound : BindReply → Bool
is_bound thrown = false
is_bound missing_fields = false
is_bound invalid_wallet_format = false
is_bound invalid_signature_format = false
is_bound signature_invalid = false
is_bound (bound _ _) = true

is_signer_iff :
    (o : Option Text) (wallet : Text) → (is_signer o wallet ≡ true) ↔ (o ≡ some (to_lower wallet))
is_signer_iff none wallet = ground arith
is_signer_iff (some r) wallet = ground (arith, text_Eq.eq_correct r (to_lower wallet))

module _ (k : Crypto) {W : Type 0} ⦃d : Double W⦄ where
  -- The binding that a call makes.
  abbrev pub binding_of : k.Secret → Measured W → Text → Text → ℕ → WalletBinding
  binding_of secret m wallet ip now = record {
    wallet = to_lower wallet;
    behavioral_hash = bind_hash k secret m;
    bound_at = now;
    ip_hash = take 16 (to_hex (k.sha256 ip));
  }

-- The field is a text.
abbrev pub is_text : BodyField → Bool
is_text absent = false
is_text (text _) = true
is_text (other _) = false

field_cases :
    (f : BodyField)
    → ((is_text f ≡ true)
        × (text_of f ≡ some (or_empty (form_of f)))
        × (form_of f ≡ some (or_empty (form_of f)))
        × (is_there f ≡ not (is_blank (or_empty (form_of f)))))
      ⊎ ((is_text f ≡ false) × (text_of f ≡ none))
field_cases absent = inr (refl, refl)
field_cases (text s) = inl (refl, refl, refl, refl)
field_cases (other _) = inr (refl, refl)

blank_wallet : is_address [] ≡ false
unfolding is_address
blank_wallet = refl

blank_signature : validate_signature_structure [] ≡ false
unfolding validate_signature_structure
blank_signature = refl

there_of_address : (s : Text) → is_address s ≡ true → is_blank s ≡ false
there_of_address [] h = ground (arith, blank_wallet)
there_of_address (x ∷ s) h = refl

there_of_signature : (s : Text) → validate_signature_structure s ≡ true → is_blank s ≡ false
there_of_signature [] h = ground (arith, blank_signature)
there_of_signature (x ∷ s) h = refl

-- The field counts as true and is converted to the text.
abbrev pub ReadsAs : BodyField → Text → Type 0
ReadsAs f t = (is_there f ≡ true) × (form_of f ≡ some t)

module _ (k : Crypto) {W : Type 0} ⦃d : Double W⦄ (signatures : Signatures) where
  -- A wallet is bound exactly if the challenge counts as true and can be read as a text, the
  -- wallet and the signature are texts of the form of an address and of a signature, and the
  -- signer recovered from the signature of the challenge is the wallet. A lookup of any
  -- spelling of the wallet then finds the binding, with the behaviour of the moment; every
  -- other lookup, and every lookup after a refusal or an exception, finds what it found before.
  pub bind_route_iff :
      (b : Bindings) (secret : k.Secret) (m : Measured W) (wallet signature challenge : BodyField)
      (ip : Text) (now : ℕ) (other_wallet : Text)
      → let (b', reply) = bind_route k signatures b secret m wallet signature challenge ip now in
        let w = or_empty (form_of wallet) in
        let s = or_empty (form_of signature) in
        let t = or_empty (form_of challenge) in
        ((is_bound reply ≡ true) ↔ (
          ReadsAs challenge t
          × (is_text wallet ≡ true)
          × (is_text signature ≡ true)
          × (is_address w ≡ true)
          × (validate_signature_structure s ≡ true)
          × (verify_eip191 signatures t s ≡ some (to_lower w))))
        × (lookup_wallet b' other_wallet ≡ (
            if is_bound reply && to_lower w === to_lower other_wallet
            then some (record (binding_of k secret m w ip now) { wallet = to_lower other_wallet })
            else lookup_wallet b other_wallet))
  unfolding bind_route bind_given bind_with bind_signed
  bind_route_iff b secret m wallet signature challenge ip now other_wallet =
      let w = or_empty (form_of wallet) in
      let s = or_empty (form_of signature) in
      let t = or_empty (form_of challenge) in
      ground (
        arith,
        field_cases wallet,
        field_cases signature,
        there_of_address w,
        there_of_signature s,
        is_signer_iff (verify_eip191 signatures t s) w,
        lookup_wallet-bind_wallet k b w (bind_hash k secret m) ip now other_wallet,
      )
