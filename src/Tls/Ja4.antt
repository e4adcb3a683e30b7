-- ===== src/Tls/Ja4.antt =====
-- `computeJA4` of gateway/src/services/tlsFingerprint.ts. `sha256` is a parameter.
use x402_health_oracle.Prelude.{
  ℕ, zero, suc, ◌-◌, ◌/◌, ◌%◌, Bool, true, false, ◌&&◌, not, List, [], ◌∷◌, ◌++◌, keep, length, ltb,
  leb, ◌==◌, if◌then◌else◌, replicate, take, Text, codes,
}
use x402_health_oracle.Crypto.{Crypto}
use x402_health_oracle.Encoding.Hex.{hex_digit, to_hex}
use x402_health_oracle.Encoding.Decimal.{to_decimal}
use x402_health_oracle.Tls.{ClientHelloInfo, without_grease}

-- A number in hexadecimal; it has fewer digits than its value.
unfoldable pub hex_onto : ℕ → ℕ → Text → Text
hex_onto zero n rest = rest
hex_onto (suc fuel) n rest = elim (ltb n 16) [
  | true ↦ hex_digit n ∷ rest
  | false ↦ hex_onto fuel (n / 16) (hex_digit (n % 16) ∷ rest)
]

abbrev pub pad_start : ℕ → Text → Text
pad_start width s = replicate (width - length s) b'0' ++ s

unfoldable pub hex4 : ℕ → Text
unfolding hex_onto
hex4 n = pad_start 4 (hex_onto (suc n) n [])

unfoldable pub tls_version_label : ℕ → Text
tls_version_label v =
    if v == 0x0304
    then codes "13"
    else if v == 0x0303
    then codes "12"
    else if v == 0x0302
    then codes "11"
    else if v == 0x0301
    then codes "10"
    else codes "00"

abbrev pub last_of : ℕ → Text → ℕ
last_of c [] = c
last_of _ (c ∷ s) = last_of c s

unfoldable pub alpn_code : List Text → Text
alpn_code [] = codes "00"
alpn_code ([] ∷ _) = codes "00"
alpn_code ((c ∷ []) ∷ _) = c ∷ c ∷ []
alpn_code ((c ∷ d ∷ s) ∷ _) = c ∷ last_of d s ∷ []

-- The sort of numbers by value.
unfoldable pub insert : ℕ → List ℕ → List ℕ
insert a [] = a ∷ []
insert a (b ∷ bs) = if leb a b then a ∷ b ∷ bs else b ∷ insert a bs

unfoldable pub sort : List ℕ → List ℕ
unfolding insert
sort [] = []
sort (a ∷ as_) = insert a (sort as_)

-- `xs.map(hex4).join(',')`
unfoldable pub join_hex : List ℕ → Text
unfolding hex4
join_hex [] = []
join_hex (a ∷ []) = hex4 a
join_hex (a ∷ b ∷ rest) = hex4 a ++ (b',' ∷ join_hex (b ∷ rest))

-- `String(Math.min(n, 99)).padStart(2, '0')`
unfoldable pub two_digits : ℕ → Text
unfolding to_decimal
two_digits n = pad_start 2 (to_decimal (if ltb 99 n then 99 else n))

pub data Transport : Type 0 where
  tcp quic : Transport

abbrev pub transport_code : Transport → ℕ
transport_code tcp = b't'
transport_code quic = b'q'

abbrev pub underscore : Text
underscore = b'_' ∷ []

unfoldable pub ja4_a : ClientHelloInfo → Transport → Text
ja4_a info transport =
    transport_code transport
    ∷ (tls_version_label info.tls_version
        ++ ((if info.sni then b'd' else b'i')
            ∷ (two_digits (length (without_grease info.ciphers))
                ++ (two_digits (length (without_grease info.extensions)) ++ alpn_code info.alpn))))

-- Neither server_name nor the protocol list.
abbrev pub is_hashed : ℕ → Bool
is_hashed e = not (e == 0) && not (e == 0x10)

module _ (c : Crypto) where
  unfoldable pub sha12 : Text → Text
  sha12 s = take 12 (to_hex (c.sha256 s))

  unfoldable pub ja4_b : ClientHelloInfo → Text
  ja4_b info = sha12 (join_hex (sort (without_grease info.ciphers)))

  unfoldable pub ja4_c : ClientHelloInfo → Text
  ja4_c info = sha12 (
      join_hex (sort (keep is_hashed (without_grease info.extensions)))
      ++ (underscore ++ join_hex (without_grease info.sig_algs)))

  unfoldable pub compute_ja4 : ClientHelloInfo → Transport → Text
  compute_ja4 info transport =
      ja4_a info transport ++ (underscore ++ (ja4_b info ++ (underscore ++ ja4_c info)))
