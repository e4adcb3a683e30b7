-- ===== src/PrivacyPass/Issuer.antt =====
-- `PrivacyPassIssuer` of gateway/src/services/privacyPass.ts. A method returns the new issuer
-- beside its answer; each `Date.now()` on the way is an argument.
pub mod Spent
pub mod Redeem
use x402_health_oracle.Prelude.{
  ℕ, ◌+◌, ◌%◌, ◌*◌, Bool, true, false, ◌&&◌, ◌||◌, Option, none, some, List, [], ◌∷◌, ◌==◌, leb,
  ltb, if◌then◌else◌, not, Text, to_lower, length, text_eq, text_Eq,
}
use x402_health_oracle.Prelude.Dict.{Dict, get, has, put, remove, retain}
use x402_health_oracle.Encoding.Hex.{Bytes, from_hex, is_hex}
use x402_health_oracle.PrivacyPass.Oprf.{
  Suite, ◌>>=◌, hex_to_bytes, blind_evaluate, evaluate, output_bytes, parse_secret_key, public_key,
}

pub data Reason : Type 0 where
  malformed_nonce malformed_output token_already_spent token_invalid : Reason

-- `redeem` answers `{ valid: true }` or `{ valid: false, reason }`; or an exception leaves it.
pub data Reply : Type 0 where
  valid : Reply
  refused : Reason → Reply
  thrown : Reply

pub record Issuer : Type 0 where
  pub sk : ℕ
  pub public_key_hex : Text
  pub max_batch : ℕ
  pub spent_ttl_ms : ℕ
  pub max_spent : ℕ
  -- nonce, in lower case → the time at which it is forgotten
  pub spent : Dict Text ℕ
  pub issued : ℕ
  pub redeemed : ℕ
  pub rejected : ℕ
  pub last_prune : ℕ

pub record IssuerOptions : Type 0 where
  pub key_hex : Option Text
  pub spent_ttl_ms : Option ℕ
  pub max_batch : Option ℕ
  pub max_spent : Option ℕ

abbrev pub or_else {ℓ} : {A : Type ℓ} → Option A → A → A
or_else none a = a
or_else (some b) _ = b

-- `xs.map(f)` where f may throw.
unfoldable pub map_all : (Text → Option Text) → List Text → Option (List Text)
map_all f [] = some []
map_all f (x ∷ xs) = do y ← f x; ys ← map_all f xs; some (y ∷ ys)

module _ (s : Suite) where
  -- The empty key text counts as absent; `fresh` is the scalar drawn for it.
  unfoldable pub new_issuer : IssuerOptions → ℕ → Option Issuer
  new_issuer opts fresh = do
    sk ← elim opts.key_hex [
      | none ↦ some fresh
      | some [] ↦ some fresh
      | some (c ∷ hex) ↦ parse_secret_key s (c ∷ hex)
    ]
    some (record {
      sk = sk;
      public_key_hex = public_key s sk;
      max_batch = or_else opts.max_batch 8;
      spent_ttl_ms = or_else opts.spent_ttl_ms 21600000;
      max_spent = or_else opts.max_spent 200000;
      spent = [];
      issued = 0;
      redeemed = 0;
      rejected = 0;
      last_prune = 0;
    })

  unfoldable pub issue_batch : Issuer → List Text → Option (Issuer × List Text)
  issue_batch i blinded =
      if length blinded == 0 || ltb i.max_batch (length blinded)
      then none
      else map_all (blind_evaluate s i.sk) blinded >>= λ evaluated.
          some (record i { issued = i.issued + length evaluated }, evaluated)

-- `this.spent.delete(this.spent.keys().next().value)`
abbrev pub drop_oldest : Dict Text ℕ → Dict Text ℕ
drop_oldest [] = []
drop_oldest ((k, t) ∷ m) = remove k ((k, t) ∷ m)

unfoldable pub mark_spent : Issuer → Text → ℕ → Issuer
mark_spent i key now =
    let kept = if leb i.max_spent (length i.spent) then drop_oldest i.spent else i.spent in
    record i { spent = put key (now + i.spent_ttl_ms) kept }

unfoldable pub prune_if_due : Issuer → ℕ → Issuer
prune_if_due i now =
    if ltb now (i.last_prune + 60000)
    then i
    else record i { last_prune = now; spent = retain (λ end. ltb now end) i.spent }

abbrev pub reject : Issuer → Reason → Issuer × Reply
reject i reason = (record i { rejected = i.rejected + 1 }, refused reason)

-- `nonce.length < 8 || nonce.length > 64`, or no hexadecimal text at all
unfoldable pub nonce_bytes : Text → Option Bytes
nonce_bytes nonce_hex = do
  nonce ← hex_to_bytes nonce_hex
  if ltb (length nonce) 8 || ltb 64 (length nonce) then none else some nonce

unfoldable pub is_output : Text → Bool
is_output output_hex = length output_hex == output_bytes * 2 && is_hex output_hex

-- The constant-time comparison, of equal lengths only.
unfoldable pub same_output : Text → Text → Bool
same_output expected output_hex =
    let a = from_hex expected in
    let b = from_hex (to_lower output_hex) in length a == length b && text_eq a b

module _ (s : Suite) where
  -- From the comparison on, for a nonce that is not in the spent set.
  unfoldable pub accept : Issuer → Bytes → Text → Text → ℕ → Issuer × Reply
  accept i nonce key output_hex now = elim (evaluate s i.sk nonce) [
    | none ↦ (i, thrown)
    | some expected ↦
        if not (same_output expected output_hex)
        then reject i token_invalid
        else let marked = mark_spent i key now in
          (record marked { redeemed = marked.redeemed + 1 }, valid)
  ]

  -- `now` is the time of the pruning, `later` the time of the mark.
  unfoldable pub redeem : Issuer → Text → Text → ℕ → ℕ → Issuer × Reply
  redeem i nonce_hex output_hex now later = elim (nonce_bytes nonce_hex) [
    | none ↦ reject i malformed_nonce
    | some nonce ↦
        let key = to_lower nonce_hex in
        let pruned = prune_if_due i now in
        if not (is_output output_hex)
        then reject i malformed_output
        else if has key pruned.spent
        then reject pruned token_already_spent
        else accept pruned nonce key output_hex later
  ]
