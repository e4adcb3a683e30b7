-- ===== src/PrivacyPass/Oprf/Roundtrip.antt =====
-- The client's output is the one that the server recomputes.
use x402_health_oracle.Prelude.{ℕ, ◌<◌, ◌≡◌, false, some, arith, All}
use x402_health_oracle.Encoding.Hex.{
  Bytes, IsByte, to_hex, from_hex-to_hex, is_hex-to_hex, length-to_hex,
}
use x402_health_oracle.PrivacyPass.Oprf.{
  Suite, IsPrimeGroup, ◌>>=◌, hex_to_bytes, hash_to_group, serialize_element, deserialize_element,
  blind, finalize, blind_evaluate, evaluate,
}

pub hex_to_bytes-to_hex : (bs : Bytes) → All IsByte bs → hex_to_bytes (to_hex bs) ≡ some bs
unfolding hex_to_bytes
hex_to_bytes-to_hex bs h =
    ground (arith, is_hex-to_hex bs h, length-to_hex bs, from_hex-to_hex bs h)

module _ (s : Suite) (laws : IsPrimeGroup s) where
  open laws use {
    order_pos, multiply_comm, multiply_invert, multiply_nonzero, to_bytes-IsByte, length-to_bytes,
    point_from_hex-to_hex, valid,
  }

  -- Over a group of prime order, a serialized point that is not the identity is read back.
  pub deserialize-serialize :
      (e : s.Element) → s.is0 e ≡ false → deserialize_element s (serialize_element s e) ≡ some e
  unfolding deserialize_element serialize_element
  deserialize-serialize e h =
      rw (hex_to_bytes-to_hex (s.to_bytes e) (to_bytes-IsByte e))
        (ground (arith, length-to_bytes e, point_from_hex-to_hex e, valid e))

  -- Over a group of prime order, a client that blinds its input, sends it, and finalizes the
  -- issuer's answer holds the output that the issuer itself computes from the input at redemption:
  -- for every key and blind in range and every input that does not hash to the identity.
  pub finalize-blind_evaluate-blind :
      (sk b : ℕ) (input : Bytes)
      → 0 < sk
      → sk < s.order
      → 0 < b
      → b < s.order
      → s.is0 (hash_to_group s input) ≡ false
      → (blind s input b >>= (λ blinded.
          blind_evaluate s sk blinded >>= (λ evaluated. finalize s input b evaluated)))
        ≡ evaluate s sk input
  unfolding blind blind_evaluate finalize evaluate
  finalize-blind_evaluate-blind sk b input ksk lsk kb lb h =
      let e = hash_to_group s input in
      let eb = s.multiply e b in
      let nb = multiply_nonzero e b h kb lb in
      let nk = multiply_nonzero eb sk nb ksk lsk in
      let same : s.multiply (s.multiply eb sk) (s.invert b) ≡ s.multiply e sk =
        rw (multiply_comm e b sk) (multiply_invert (s.multiply e sk) b kb lb) in
      ground (arith, deserialize-serialize eb nb, deserialize-serialize (s.multiply eb sk) nk, same)
