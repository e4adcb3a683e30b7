-- ===== src/PrivacyPass/Issuer/Spent.antt =====
-- The spent set: bounded, and without doubles.
use x402_health_oracle.Prelude.{
  ℕ, ◌+◌, ◌≤◌, ◌<◌, [], ◌∷◌, arith, Text, text_Eq, length, ltb, eq_self, length-keep-le,
  Option-cases, inl, inr, to_lower,
}
use x402_health_oracle.Prelude.Dict.{
  Dict, Distinct, length-put, length-remove-le, put-Distinct, remove-Distinct, retain-Distinct,
}
use x402_health_oracle.Encoding.Hex.{Bytes}
use x402_health_oracle.PrivacyPass.Oprf.{Suite}
use x402_health_oracle.PrivacyPass.Issuer.{
  Issuer, drop_oldest, mark_spent, prune_if_due, nonce_bytes, accept, redeem,
}

pub record IsValid (i : Issuer) : Type 0 where
  pub room : 0 < i.max_spent
  pub bounded : length i.spent ≤ i.max_spent
  pub distinct : Distinct i.spent

length-drop_oldest : (m : Dict Text ℕ) → 0 < length m → length (drop_oldest m) < length m
length-drop_oldest [] h = absurd (omega arith)
length-drop_oldest ((k, t) ∷ m) h = ground (arith, eq_self k, length-remove-le k m)

drop_oldest-Distinct : (m : Dict Text ℕ) → Distinct m → Distinct (drop_oldest m)
drop_oldest-Distinct [] d = tt
drop_oldest-Distinct ((k, t) ∷ m) d = remove-Distinct k ((k, t) ∷ m) d

mark_spent-IsValid :
    (i : Issuer) (key : Text) (now : ℕ) → IsValid i → IsValid (mark_spent i key now)
unfolding mark_spent
mark_spent-IsValid i key now v = record {
  room = v.room;
  bounded = ground (
    arith,
    length-drop_oldest i.spent,
    length-put key (now + i.spent_ttl_ms) i.spent,
    length-put key (now + i.spent_ttl_ms) (drop_oldest i.spent),
  );
  distinct = ground (
    arith,
    drop_oldest-Distinct i.spent,
    put-Distinct key (now + i.spent_ttl_ms) i.spent,
    put-Distinct key (now + i.spent_ttl_ms) (drop_oldest i.spent),
  );
}

pub prune_if_due-IsValid : (i : Issuer) (now : ℕ) → IsValid i → IsValid (prune_if_due i now)
unfolding prune_if_due
prune_if_due-IsValid i now v = ground (
  arith,
  length-keep-le (λ entry. ltb now entry.1) i.spent,
  retain-Distinct (λ end. ltb now end) i.spent,
)

module _ (s : Suite) where
  accept-IsValid :
      (i : Issuer) (nonce : Bytes) (key output : Text) (now : ℕ)
      → IsValid i
      → IsValid (accept s i nonce key output now).0
  unfolding accept
  accept-IsValid i nonce key output now v = ground (arith, mark_spent-IsValid i key now v)

  -- If the spent set holds at most `maxSpent` nonces, at least one being allowed, and each of them
  -- once, so it does after a redemption.
  pub redeem-IsValid :
      (i : Issuer) (nonce output : Text) (now later : ℕ)
      → IsValid i
      → IsValid (redeem s i nonce output now later).0
  unfolding redeem
  redeem-IsValid i nonce output now later v = elim (Option-cases (nonce_bytes nonce)) [
    | inl bad ↦ rw (bad, redeem) (ground arith)
    | inr (bytes, good) ↦
        rw (good, redeem)
          (ground (
            arith,
            prune_if_due-IsValid i now v,
            accept-IsValid (prune_if_due i now) bytes (to_lower nonce) output later,
          ))
  ]
