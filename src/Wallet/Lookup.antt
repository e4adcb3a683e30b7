-- ===== src/Wallet/Lookup.antt =====
-- What is bound is found, whatever the case of the letters; and the statistics.
use Prim.Native.Nat.add
use x402_health_oracle.Prelude.{
  ltb, ℕ, ◌+◌, ◌≤◌, ◌≡◌, refl, some, List, [], ◌∷◌, arith, Text, text_Eq, ◌===◌, length, to_lower,
  if◌then◌else◌, leb, take,
}
use x402_health_oracle.Prelude.Dict.{Dict, get, get-put}
use x402_health_oracle.Crypto.{Crypto}
use x402_health_oracle.Encoding.Hex.{to_hex}
use x402_health_oracle.Wallet.{
  Bindings, WalletBinding, wallets_or_none, bind_wallet, lookup_wallet, get_wallets_by_hash,
  count_groups, get_binding_stats, sybil_threshold,
}

module _ (c : Crypto) where
  abbrev binding_of : Text → Text → Text → ℕ → WalletBinding
  binding_of wallet hash ip now = record {
    wallet = to_lower wallet;
    behavioral_hash = hash;
    bound_at = now;
    ip_hash = take 16 (to_hex (c.sha256 ip));
  }

  -- After `bindWallet`, looking up any spelling of the address gives the new binding; every other
  -- address has the binding that it had.
  pub lookup_wallet-bind_wallet :
      (b : Bindings) (wallet hash ip : Text) (now : ℕ) (w : Text)
      → lookup_wallet (bind_wallet c b wallet hash ip now).0 w ≡ (
          if to_lower wallet === to_lower w
          then some (record {
            wallet = to_lower w;
            behavioral_hash = hash;
            bound_at = now;
            ip_hash = take 16 (to_hex (c.sha256 ip));
          })
          else lookup_wallet b w)
  unfolding bind_wallet lookup_wallet
  lookup_wallet-bind_wallet b wallet hash ip now w = ground (
    arith,
    text_Eq.eq_correct (to_lower wallet) (to_lower w),
    get-put (to_lower wallet) (to_lower w) (binding_of wallet hash ip now) b.by_wallet,
  )

-- The number of groups of at least three wallets.
abbrev pub sybils : Dict Text (List Text) → ℕ
sybils [] = 0
sybils ((_, ws) ∷ m) = (if leb 3 (length ws) then 1 else 0) + sybils m

count_groups_lem :
    (g l : ℕ) (m : Dict Text (List Text))
    → ((count_groups g l m).0 ≡ g + sybils m) × (l ≤ (count_groups g l m).1)
unfolding count_groups
count_groups_lem g l [] = omega arith
count_groups_lem g l ((k, ws) ∷ m) =
    let ih =
      count_groups_lem (if leb sybil_threshold (length ws) then g + 1 else g)
        (if ltb l (length ws) then length ws else l) m in
    ground arith

count_groups_largest :
    (h : Text) (g l : ℕ) (m : Dict Text (List Text))
    → length (wallets_or_none (get h m)) ≤ (count_groups g l m).1
unfolding count_groups
count_groups_largest h g l [] = omega arith
count_groups_largest h g l ((k, ws) ∷ m) =
    let g' : ℕ = if leb sybil_threshold (length ws) then g + 1 else g in
    let l' : ℕ = if ltb l (length ws) then length ws else l in
    ground (arith, count_groups_largest h g' l' m, count_groups_lem g' l' m)

-- The statistics count the groups of at least three wallets, and no group is larger than the
-- largest that they report.
pub get_binding_stats_lem :
    (b : Bindings) (h : Text)
    → let s = get_binding_stats b in
      (s.sybil_groups ≡ sybils b.by_behavioral_hash)
      × (s.total_bound ≡ length b.by_wallet)
      × (length (get_wallets_by_hash b h) ≤ s.largest_group)
unfolding get_binding_stats get_wallets_by_hash
get_binding_stats_lem b h = (
  rw add.zero at (count_groups_lem 0 0 b.by_behavioral_hash).0,
  refl,
  count_groups_largest h 0 0 b.by_behavioral_hash,
)
