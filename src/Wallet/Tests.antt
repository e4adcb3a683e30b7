-- ===== src/Wallet/Tests.antt =====
-- Wallets on concrete bindings.
use x402_health_oracle.Prelude.{
  ◌+◌, ◌≤◌, ◌≡◌, ◌↔◌, true, [], codes, Text, text_Eq, if◌then◌else◌, length, to_lower,
}
use x402_health_oracle.Crypto.{toy_crypto}
use x402_health_oracle.Wallet.{Bindings, bind_wallet, is_member, get_wallets_by_hash}
use x402_health_oracle.Wallet.Groups.{bind_wallet_shared}

abbrev no_bindings : Bindings
no_bindings = record { by_wallet = []; by_behavioral_hash = [] }

abbrev a_wallet : Text
a_wallet = codes "0xAB"

abbrev one_bound : Bindings
one_bound = (bind_wallet toy_crypto no_bindings (codes "0xCD") (codes "h1") (codes "ip") 5).0

bind_wallet_shared_example :
    let (b', r) = bind_wallet toy_crypto one_bound a_wallet (codes "h1") (codes "ip") 6 in
    let before = get_wallets_by_hash one_bound (codes "h1") in
    (r.shared_wallets ≡ length (get_wallets_by_hash b' (codes "h1")))
    × (r.shared_wallets
        ≡ (if is_member (to_lower a_wallet) before then length before else length before + 1))
    × ((r.sybil_detected ≡ true) ↔ (3 ≤ r.shared_wallets))
    × (is_member (to_lower a_wallet) (get_wallets_by_hash b' (codes "h1")) ≡ true)
bind_wallet_shared_example =
    bind_wallet_shared toy_crypto one_bound a_wallet (codes "h1") (codes "ip") 6
