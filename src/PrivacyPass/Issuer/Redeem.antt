-- ===== src/PrivacyPass/Issuer/Redeem.antt =====
-- Redemption: each token once, honest tokens accepted, every call counted.
use x402_health_oracle.Prelude.{
  ℕ, ◌/◌, ◌%◌, codes, ◌+◌, ◌≤◌, ◌<◌, ◌≡◌, ◌≢◌, refl, true, false, some, [], ◌∷◌, arith, Text,
  text_Eq, text_eq_refl, All, length, ltb, to_lower, inl, inr, Option-cases,
}
use x402_health_oracle.Prelude.Dict.{get, has, Distinct, get-put_self, get-retain}
use x402_health_oracle.Encoding.Hex.{
  Bytes, IsByte, to_hex, from_hex, to_lower-to_hex, is_hex-to_hex, length-to_hex,
}
use x402_health_oracle.PrivacyPass.Oprf.{
  Suite, IsPrimeGroup, evaluate, finalize_hash, i2osp2, concat_bytes, hash_to_group,
}
use x402_health_oracle.PrivacyPass.Issuer.{
  Issuer, Reason, valid, refused, thrown, mark_spent, prune_if_due, nonce_bytes, is_output,
  same_output, accept, redeem,
}
use x402_health_oracle.PrivacyPass.Issuer.Spent.{IsValid, redeem-IsValid}

mark_spent_lem :
    (i : Issuer) (key : Text) (now : ℕ)
    → let i' = mark_spent i key now in
      (i'.redeemed ≡ i.redeemed)
      × (i'.rejected ≡ i.rejected)
      × (get key i'.spent ≡ some (now + i.spent_ttl_ms))
unfolding mark_spent
mark_spent_lem i key now = (refl, refl, get-put_self key (now + i.spent_ttl_ms) _)

prune_if_due_lem :
    (i : Issuer) (now : ℕ)
    → let i' = prune_if_due i now in
      (i'.redeemed ≡ i.redeemed)
      × (i'.rejected ≡ i.rejected)
      × (i'.sk ≡ i.sk)
      × (i'.spent_ttl_ms ≡ i.spent_ttl_ms)
unfolding prune_if_due
prune_if_due_lem i now = ground arith

prune_keeps :
    (i : Issuer) (key : Text) (now end : ℕ)
    → Distinct i.spent
    → get key i.spent ≡ some end
    → now < end
    → get key (prune_if_due i now).spent ≡ some end
unfolding prune_if_due
prune_keeps i key now end d held h = ground (arith, get-retain (λ e. ltb now e) key i.spent d)

module _ (s : Suite) where
  accept_lem :
      (i : Issuer) (nonce : Bytes) (key output : Text) (now : ℕ)
      → let (i', reply) = accept s i nonce key output now in
        (reply ≡ valid
          → (get key i'.spent ≡ some (now + i.spent_ttl_ms))
            × (i'.redeemed ≡ i.redeemed + 1)
            × (i'.rejected ≡ i.rejected))
        × ((r : Reason)
            → reply ≡ refused r
            → (i'.redeemed ≡ i.redeemed) × (i'.rejected ≡ i.rejected + 1))
  unfolding accept
  accept_lem i nonce key output now =
      (ground (arith, mark_spent_lem i key now), λ r e. ground (arith, mark_spent_lem i key now))

  -- Every redemption that returns is counted once: a valid one as redeemed, a refused one as
  -- rejected. A valid one leaves its nonce, in lower case, in the spent set for the token lifetime.
  pub redeem_counts :
      (i : Issuer) (nonce output : Text) (now later : ℕ)
      → let (i', reply) = redeem s i nonce output now later in
        (reply ≡ valid
          → (get (to_lower nonce) i'.spent ≡ some (later + i.spent_ttl_ms))
            × (i'.redeemed ≡ i.redeemed + 1)
            × (i'.rejected ≡ i.rejected))
        × ((r : Reason)
            → reply ≡ refused r
            → (i'.redeemed ≡ i.redeemed) × (i'.rejected ≡ i.rejected + 1))
  unfolding redeem
  redeem_counts i nonce output now later = elim (Option-cases (nonce_bytes nonce)) [
    | inl bad ↦ rw (bad, redeem) (ground arith, λ r e. ground arith)
    | inr (bytes, good) ↦
        let p = prune_if_due i now in
        let kept = prune_if_due_lem i now in
        let (yes_case, no_case) = accept_lem p bytes (to_lower nonce) output later in
        rw (good, redeem) (ground (arith, yes_case), λ r e. ground (arith, no_case r))
  ]

  spent_refused :
      (i : Issuer) (nonce output : Text) (now later end : ℕ)
      → get (to_lower nonce) (prune_if_due i now).spent ≡ some end
      → (redeem s i nonce output now later).1 ≢ valid
  unfolding redeem
  spent_refused i nonce output now later end e = ground arith

  -- A token is not accepted twice: if the spent set is within its bound, each nonce in it once,
  -- then a redemption that follows a valid one of the same nonce, in whatever case of letters and
  -- with whatever output, is not valid before the token lifetime ends.
  pub redeem_once :
      (i : Issuer) (nonce output nonce' output' : Text) (now later now' later' : ℕ)
      → IsValid i
      → to_lower nonce' ≡ to_lower nonce
      → (redeem s i nonce output now later).1 ≡ valid
      → now' < later + i.spent_ttl_ms
      → (redeem s (redeem s i nonce output now later).0 nonce' output' now' later').1 ≢ valid
  redeem_once i nonce output nonce' output' now later now' later' v same ok h =
      let i' = (redeem s i nonce output now later).0 in
      let held = ((redeem_counts i nonce output now later).0 ok).0 in
      let d = (redeem-IsValid s i nonce output now later v).distinct in
      let kept = prune_keeps i' (to_lower nonce) now' (later + i.spent_ttl_ms) d held h in
      spent_refused i' nonce' output' now' later' (later + i.spent_ttl_ms) (rw same kept)

abbrev two_bytes : ℕ → Bytes
two_bytes n = (n / 256) % 256 ∷ n % 256 ∷ []

i2osp2_small : (n : ℕ) → n < 65536 → i2osp2 n ≡ some (two_bytes n)
unfolding i2osp2
i2osp2_small n h = ground arith

nonce_bytes-le : (nonce : Text) (bytes : Bytes) → nonce_bytes nonce ≡ some bytes → length bytes ≤ 64
unfolding nonce_bytes
nonce_bytes-le nonce bytes h = ground arith

same_output_self : (bs : Bytes) → All IsByte bs → same_output (to_hex bs) (to_hex bs) ≡ true
unfolding same_output
same_output_self bs h =
    rw (to_lower-to_hex bs h) (ground (arith, text_eq_refl (from_hex (to_hex bs))))

module _ (s : Suite) (laws : IsPrimeGroup s) where
  open laws use {length-to_bytes, length-sha384, sha384-IsByte}

  evaluate_lem :
      (sk : ℕ) (nonce : Bytes)
      → length nonce ≤ 64
      → (bs : Bytes) × (evaluate s sk nonce ≡ some (to_hex bs)) × All IsByte bs × (length bs ≡ 48)
  unfolding evaluate finalize_hash
  evaluate_lem sk nonce h =
      let el = s.to_bytes (s.multiply (hash_to_group s nonce) sk) in
      let message =
        concat_bytes
          (two_bytes (length nonce) ∷ nonce ∷ two_bytes (length el) ∷ el ∷ codes "Finalize" ∷ []) in
      (
        s.sha384 message,
        rw (
          i2osp2_small (length nonce) (omega arith),
          i2osp2_small (length el)
              (omega (arith, length-to_bytes (s.multiply (hash_to_group s nonce) sk))),
        ),
        sha384-IsByte message,
        length-sha384 message,
      )

  -- Over a group of prime order no redemption throws.
  pub redeem-ne-thrown :
      (i : Issuer) (nonce output : Text) (now later : ℕ)
      → (redeem s i nonce output now later).1 ≢ thrown
  unfolding redeem accept nonce_bytes
  redeem-ne-thrown i nonce output now later e = elim (Option-cases (nonce_bytes nonce)) [
    | inl bad ↦ ground arith
    | inr (bytes, good) ↦
        let (bs, evaluated, _, _) =
          evaluate_lem (prune_if_due i now).sk bytes (nonce_bytes-le nonce bytes good) in
        ground arith
  ]

  -- Over a group of prime order an honest token is accepted: a nonce of 8 to 64 bytes in
  -- hexadecimal, whatever the case of its letters, that is not in the spent set, with the output
  -- that the issuer's key gives.
  pub redeem_honest :
      (i : Issuer) (nonce output : Text) (bytes : Bytes) (now later : ℕ)
      → nonce_bytes nonce ≡ some bytes
      → evaluate s i.sk bytes ≡ some output
      → has (to_lower nonce) (prune_if_due i now).spent ≡ false
      → (redeem s i nonce output now later).1 ≡ valid
  unfolding redeem accept is_output
  redeem_honest i nonce output bytes now later n e fresh =
      let (bs, evaluated, small, long) = evaluate_lem i.sk bytes (nonce_bytes-le nonce bytes n) in
      let same : output ≡ to_hex bs = ground arith in
      ground (
        arith,
        prune_if_due_lem i now,
        same_output_self bs small,
        is_hex-to_hex bs small,
        length-to_hex bs,
      )
