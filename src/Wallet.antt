-- ===== src/Wallet.antt =====
-- gateway/src/services/walletBinder.ts. The two module-level maps are explicit state; addresses and
-- hashes are texts, and `boundAt` is the time that the call is given.
pub mod Groups
pub mod Lookup
mod Tests
use x402_health_oracle.Prelude.{
  ℕ, ◌+◌, Bool, true, false, ◌||◌, Option, none, some, List, [], ◌∷◌, ◌++◌, leb, ltb, if◌then◌else◌,
  Text, codes, to_lower, length, take, drop, starts_with, text_Eq, ◌===◌, ◌==◌, ◌&&◌,
}
use x402_health_oracle.Prelude.Dict.{Dict, get, put}
use x402_health_oracle.Crypto.{Crypto}
use x402_health_oracle.Encoding.Hex.{to_hex, is_hex}
use x402_health_oracle.Double.{Double}

pub record WalletBinding : Type 0 where
  pub wallet : Text
  pub behavioral_hash : Text
  pub bound_at : ℕ
  pub ip_hash : Text

pub record Bindings : Type 0 where
  pub by_wallet : Dict Text WalletBinding
  -- hash → wallets
  pub by_behavioral_hash : Dict Text (List Text)

pub record BindResult : Type 0 where
  pub ok : Bool
  pub sybil_detected : Bool
  pub shared_wallets : ℕ

pub record BindingStats : Type 0 where
  pub total_bound : ℕ
  pub sybil_groups : ℕ
  pub largest_group : ℕ

abbrev pub sybil_threshold : ℕ
sybil_threshold = 3

module _ {ℓ} {W : Type ℓ} ⦃d : Double W⦄ (c : Crypto) where
  unfoldable pub compute_behavioral_hash : c.Secret → W → W → W → Text
  compute_behavioral_hash secret entropy variance spearman_rho =
      let payload =
        d.to_fixed 3 entropy
        ++ b':' ∷ (d.to_fixed 4 variance ++ b':' ∷ d.to_fixed 3 spearman_rho) in
      to_hex (c.hmac_sha256 secret payload)

-- `s.startsWith('0x') ? s.slice(2) : s`
abbrev pub strip_0x : Text → Text
strip_0x s = if starts_with s (codes "0x") then drop 2 s else s

unfoldable pub validate_signature_structure : Text → Bool
validate_signature_structure signature =
    let hex = strip_0x signature in length hex == 130 && is_hex hex

-- `map.get(k) ?? []`
abbrev pub wallets_or_none : Option (List Text) → List Text
wallets_or_none none = []
wallets_or_none (some wallets) = wallets

-- `list.includes(addr)`
abbrev pub is_member : Text → List Text → Bool
is_member addr [] = false
is_member addr (w ∷ wallets) = w === addr || is_member addr wallets

unfoldable pub add_member : Text → List Text → List Text
add_member addr wallets = if is_member addr wallets then wallets else wallets ++ addr ∷ []

module _ (c : Crypto) where
  unfoldable pub bind_wallet : Bindings → Text → Text → Text → ℕ → Bindings × BindResult
  bind_wallet b wallet behavioral_hash ip_raw now =
      let addr = to_lower wallet in
      let list = add_member addr (wallets_or_none (get behavioral_hash b.by_behavioral_hash)) in
      (
        record {
          by_wallet =
              put addr
                (record {
                  wallet = addr;
                  behavioral_hash = behavioral_hash;
                  bound_at = now;
                  ip_hash = take 16 (to_hex (c.sha256 ip_raw));
                })
                b.by_wallet;
          by_behavioral_hash = put behavioral_hash list b.by_behavioral_hash;
        },
        record {
          ok = true;
          sybil_detected = leb sybil_threshold (length list);
          shared_wallets = length list;
        },
      )

unfoldable pub lookup_wallet : Bindings → Text → Option WalletBinding
lookup_wallet b wallet = get (to_lower wallet) b.by_wallet

unfoldable pub get_wallets_by_hash : Bindings → Text → List Text
get_wallets_by_hash b behavioral_hash = wallets_or_none (get behavioral_hash b.by_behavioral_hash)

unfoldable pub count_groups : ℕ → ℕ → Dict Text (List Text) → ℕ × ℕ
count_groups groups largest [] = (groups, largest)
count_groups groups largest ((_, wallets) ∷ rest) =
    count_groups (if leb sybil_threshold (length wallets) then groups + 1 else groups)
      (if ltb largest (length wallets) then length wallets else largest) rest

unfoldable pub get_binding_stats : Bindings → BindingStats
get_binding_stats b =
    let (groups, largest) = count_groups 0 0 b.by_behavioral_hash in
    record { total_bound = length b.by_wallet; sybil_groups = groups; largest_group = largest }

unfoldable pub clear_bindings : Bindings → Bindings
clear_bindings b = record { by_wallet = []; by_behavioral_hash = [] }
