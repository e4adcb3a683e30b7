-- ===== src/Seal/Acceptance.antt =====
-- When a seal is accepted, and what its time stamp is worth.
use x402_health_oracle.Prelude.{
  ℕ, ◌*◌, ◌≡◌, ◌↔◌, ◌⊎◌, true, false, Option, none, some, arith, Text, [], text_Eq, nat_Eq, eq_self,
}
use x402_health_oracle.Crypto.{Crypto}
use x402_health_oracle.Double.{Double, ◌⊖◌, num, neg}
use x402_health_oracle.Double.Laws.{◌≼◌, IsNumber, IsOrdered}
use x402_health_oracle.Rhythm.Session.{Sessions}
use x402_health_oracle.Seal.{
  SealData, header_text, noise_text, out_of_window, accept, expected_sig, check_seal,
  verify_entropy_seal,
}

abbrev sig_or_empty : Option Text → Text
sig_or_empty none = []
sig_or_empty (some s) = s

module _ {ℓ} {W : Type ℓ} ⦃d : Double W⦄ where
  nan_in_window :
      (laws : IsOrdered W) (now : ℕ) (ts : W)
      → ¬ ((num (now * 1000) ⊖ ts) ≼ (num (now * 1000) ⊖ ts))
      → out_of_window now ts ≡ false
  unfolding out_of_window
  nan_in_window laws now ts nan =
      let age = num (now * 1000) ⊖ ts in
      ground
        (arith, laws.number_of_lt (num 35000000) age, laws.number_of_lt age (neg (num 30000000)))

  -- An age in microseconds from 30 s ahead of the server's clock to 35 s behind it, or none at all.
  abbrev pub IsTimely : W → Type 0
  IsTimely age = (¬ IsNumber age) ⊎ ((neg (num 30000000) ≼ age) × (age ≼ num 35000000))

  out_of_window_iff :
      (laws : IsOrdered W) (now : ℕ) (ts : W)
      → (out_of_window now ts ≡ false) ↔ IsTimely (num (now * 1000) ⊖ ts)
  unfolding out_of_window
  out_of_window_iff laws now ts =
      let age = num (now * 1000) ⊖ ts in
      ground (
        arith,
        laws.ratio_mono 35000000 35000000 1 (omega arith) (omega arith),
        laws.neg_number 30000000,
        laws.number_of_lt (num 35000000) age,
        laws.number_of_lt age (neg (num 30000000)),
        laws.number_of_le age (num 35000000),
        laws.number_of_le (neg (num 30000000)) age,
        laws.lt-eq-not-le (num 35000000) age,
        laws.lt-eq-not-le age (neg (num 30000000)),
      )

  accept-valid : (m : Sessions W) (id : Text) → (accept m id).valid ≡ true
  unfolding accept
  accept-valid m id = ground arith

module _ {ℓ} {W : Type ℓ} ⦃d : Double W⦄ (c : Crypto) where
  check_seal_iff :
      (m : Sessions W) (id : Text) (s : SealData W) (noise : Text) (index : ℕ) (secret : c.Secret)
      (now : ℕ)
      → ((check_seal c m id s noise index secret now).valid ≡ true) ↔ (
          (out_of_window now s.ts ≡ false)
          × (s.seq ≡ some index)
          × (s.sig ≡ some (expected_sig c secret id index noise)))
  unfolding check_seal
  check_seal_iff m id s noise index secret now = (
    λ h.
        ground
          (arith, text_Eq.eq_correct (sig_or_empty s.sig) (expected_sig c secret id index noise)),
    λ h. ground (arith, accept-valid m id, eq_self (expected_sig c secret id index noise)),
  )

  -- A seal whose header is there and can be read passes exactly the three checks.
  pub verify_entropy_seal_checks :
      (read_header : Text → Option (SealData W)) (m : Sessions W) (id : Text)
      (seal noise : Option Text) (index : ℕ) (secret : c.Secret) (now : ℕ) (header : Text)
      (s : SealData W)
      → header_text seal ≡ some header
      → read_header header ≡ some s
      → ((verify_entropy_seal c read_header m id seal noise index secret now).valid ≡ true) ↔ (
          (out_of_window now s.ts ≡ false)
          × (s.seq ≡ some index)
          × (s.sig ≡ some (expected_sig c secret id index (noise_text noise))))
  unfolding verify_entropy_seal
  verify_entropy_seal_checks read_header m id seal noise index secret now header s e r =
      rw (e, verify_entropy_seal, r) (check_seal_iff m id s (noise_text noise) index secret now)

  -- A seal whose header is there and can be read is accepted exactly if its age is no number or
  -- lies between -30 s and 35 s, its sequence is the index of the packet, and its signature is
  -- the HMAC of session, index and noise. It takes the laws of order.
  pub verify_entropy_seal_iff :
      (laws : IsOrdered W) (read_header : Text → Option (SealData W)) (m : Sessions W) (id : Text)
      (seal noise : Option Text) (index : ℕ) (secret : c.Secret) (now : ℕ) (header : Text)
      (s : SealData W)
      → header_text seal ≡ some header
      → read_header header ≡ some s
      → ((verify_entropy_seal c read_header m id seal noise index secret now).valid ≡ true) ↔ (
          IsTimely (num (now * 1000) ⊖ s.ts)
          × (s.seq ≡ some index)
          × (s.sig ≡ some (expected_sig c secret id index (noise_text noise))))
  verify_entropy_seal_iff laws read_header m id seal noise index secret now header s e r = ground (
    arith,
    verify_entropy_seal_checks read_header m id seal noise index secret now header s e r,
    out_of_window_iff laws now s.ts,
  )

  -- The time stamp is not signed, and one that is no number passes the freshness check: a seal that
  -- was accepted once is accepted at any later time, at the same index, if its time stamp alone is
  -- replaced by one whose age is NaN.
  pub check_seal_replay :
      (laws : IsOrdered W) (m m' : Sessions W) (id : Text) (s : SealData W) (ts : W) (noise : Text)
      (index : ℕ) (secret : c.Secret) (now now' : ℕ)
      → ¬ ((num (now' * 1000) ⊖ ts) ≼ (num (now' * 1000) ⊖ ts))
      → (check_seal c m id s noise index secret now).valid ≡ true
      → (check_seal c m' id (record s { ts = ts }) noise index secret now').valid ≡ true
  check_seal_replay laws m m' id s ts noise index secret now now' nan h =
      let (_, seq, sig) = (check_seal_iff m id s noise index secret now).0 h in
      (check_seal_iff m' id (record s { ts = ts }) noise index secret now').1
        (nan_in_window laws now' ts nan, seq, sig)
