-- ===== src/Wallet/Groups.antt =====
-- The groups of wallets that share a behavioural hash.
use x402_health_oracle.Prelude.{
  ℕ, ◌+◌, ◌≤◌, ◌≡◌, ◌↔◌, refl, true, false, List, [], ◌∷◌, ◌++◌, arith, Text, text_Eq, ◌===◌,
  eq_self, length, length-append, to_lower, if◌then◌else◌,
}
use x402_health_oracle.Prelude.Dict.{get, get-put, get-put_self}
use x402_health_oracle.Crypto.{Crypto}
use x402_health_oracle.Wallet.{
  Bindings, wallets_or_none, is_member, add_member, bind_wallet, get_wallets_by_hash,
}

-- No wallet stands twice.
abbrev pub NoRepeats : List Text → Type 0
NoRepeats [] = Unit
NoRepeats (w ∷ ws) = (is_member w ws ≡ false) × NoRepeats ws

is_member-append :
    (a b : Text) (ws : List Text)
    → is_member a (ws ++ b ∷ []) ≡ (if is_member a ws then true else b === a)
is_member-append a b [] = ground arith
is_member-append a b (w ∷ ws) = ground (arith, is_member-append a b ws)

NoRepeats-append :
    (a : Text) (ws : List Text) → NoRepeats ws → is_member a ws ≡ false → NoRepeats (ws ++ a ∷ [])
NoRepeats-append a [] n h = (refl, tt)
NoRepeats-append a (w ∷ ws) n h = ground (
  arith,
  is_member-append w a ws,
  NoRepeats-append a ws n.1,
  text_Eq.eq_correct a w,
  text_Eq.eq_correct w a,
)

pub add_member-NoRepeats : (a : Text) (ws : List Text) → NoRepeats ws → NoRepeats (add_member a ws)
unfolding add_member
add_member-NoRepeats a ws n = ground (arith, NoRepeats-append a ws n)

pub is_member-add_member :
    (a b : Text) (ws : List Text)
    → is_member b (add_member a ws) ≡ (if is_member b ws then true else a === b)
unfolding add_member
is_member-add_member a b ws = ground (arith, is_member-append b a ws, text_Eq.eq_correct a b)

length-add_member :
    (a : Text) (ws : List Text)
    → length (add_member a ws) ≡ (if is_member a ws then length ws else length ws + 1)
unfolding add_member
length-add_member a ws = ground (arith, length-append ws (a ∷ []))

-- Every group lists a wallet once.
pub IsValid : Bindings → Type 0
IsValid b = (h : Text) → NoRepeats (get_wallets_by_hash b h)

module _ (c : Crypto) where
  -- The group of the hash gains the wallet, in lower case, once; the other groups stay as they are.
  pub bind_wallet_groups :
      (b : Bindings) (wallet hash ip : Text) (now : ℕ) (h : Text)
      → get_wallets_by_hash (bind_wallet c b wallet hash ip now).0 h ≡ (
          if hash === h
          then add_member (to_lower wallet) (get_wallets_by_hash b h)
          else get_wallets_by_hash b h)
  unfolding bind_wallet get_wallets_by_hash
  bind_wallet_groups b wallet hash ip now h = ground (
    arith,
    text_Eq.eq_correct hash h,
    get-put hash h (add_member (to_lower wallet) (get_wallets_by_hash b hash)) b.by_behavioral_hash,
  )

  pub bind_wallet-IsValid :
      (b : Bindings) (wallet hash ip : Text) (now : ℕ)
      → IsValid b
      → IsValid (bind_wallet c b wallet hash ip now).0
  unfolding IsValid
  bind_wallet-IsValid b wallet hash ip now v h =
      rw (bind_wallet_groups b wallet hash ip now h) (
        ground (arith, v h, add_member-NoRepeats (to_lower wallet) (get_wallets_by_hash b h) (v h)))

  -- What `bindWallet` reports: the number of different wallets that have been bound with the hash,
  -- which grows by one exactly if this wallet, in lower case, was not among them; and a Sybil
  -- exactly from three on.
  pub bind_wallet_shared :
      (b : Bindings) (wallet hash ip : Text) (now : ℕ)
      → let (b', r) = bind_wallet c b wallet hash ip now in
        let before = get_wallets_by_hash b hash in
        (r.shared_wallets ≡ length (get_wallets_by_hash b' hash))
        × (r.shared_wallets
            ≡ (if is_member (to_lower wallet) before then length before else length before + 1))
        × ((r.sybil_detected ≡ true) ↔ (3 ≤ r.shared_wallets))
        × (is_member (to_lower wallet) (get_wallets_by_hash b' hash) ≡ true)
  unfolding bind_wallet get_wallets_by_hash
  bind_wallet_shared b wallet hash ip now =
      let before = wallets_or_none (get hash b.by_behavioral_hash) in
      let list = add_member (to_lower wallet) before in
      let held = get-put_self hash list b.by_behavioral_hash in
      let member = is_member-add_member (to_lower wallet) (to_lower wallet) before in
      (
        rw held,
        length-add_member (to_lower wallet) before,
        ground arith,
        ground (arith, eq_self (to_lower wallet)),
      )

  -- A wallet that is bound again with another hash stays in the group of its old one.
  pub bind_wallet_stays :
      (b : Bindings) (wallet hash hash' ip : Text) (now now' : ℕ)
      → let b' = (bind_wallet c b wallet hash ip now).0 in
        let b'' = (bind_wallet c b' wallet hash' ip now').0 in
        is_member (to_lower wallet) (get_wallets_by_hash b'' hash) ≡ true
  bind_wallet_stays b wallet hash hash' ip now now' =
      let b' = (bind_wallet c b wallet hash ip now).0 in
      let first = (bind_wallet_shared b wallet hash ip now).3 in
      rw (bind_wallet_groups b' wallet hash' ip now' hash) (
        ground (
          arith,
          first,
          is_member-add_member (to_lower wallet) (to_lower wallet) (get_wallets_by_hash b' hash),
        ))
