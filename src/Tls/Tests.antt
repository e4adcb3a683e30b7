-- ===== src/Tls/Tests.antt =====
-- A hello on concrete bytes, and two that differ by order and GREASE.
use mathlib.Core.List.{Permᴰ}
use x402_health_oracle.Prelude.{
  ℕ, ◌≡◌, refl, true, some, [], ◌∷◌, ◌++◌, arith, replicate, All, length,
}
use x402_health_oracle.Crypto.{toy_crypto}
use x402_health_oracle.Encoding.Hex.{Bytes, IsByte}
use x402_health_oracle.Tls.{ClientHelloInfo, is_grease, without_grease}
use x402_health_oracle.Tls.Ja4.{tcp, compute_ja4}
use x402_health_oracle.Tls.Parse.{
  read_u16, read_ciphers, best_version, read_alpn, read_sig_algs, read_body, read_extension,
  read_extensions, read_tail, read_offer, read_hello, parse_client_hello,
}
use x402_health_oracle.Tls.Wire.{compute_ja4_perm}
use x402_health_oracle.Tls.Fields.{IsHello, parse_client_hello-IsHello}
use x402_health_oracle.Tls.Fuel.{loops_fuel}

-- TLS 1.2, one cipher, no compression, and the extension server_name with an empty body.
abbrev a_buffer : Bytes
a_buffer =
    1
    ∷ 0
    ∷ 0
    ∷ 0
    ∷ 3
    ∷ 3
    ∷ (replicate 32 7 ++ (0 ∷ 0 ∷ 2 ∷ 0x13 ∷ 1 ∷ 1 ∷ 0 ∷ 0 ∷ 4 ∷ 0 ∷ 0 ∷ 0 ∷ 0 ∷ []))

abbrev a_hello : ClientHelloInfo
a_hello = record {
  tls_version = 0x0303;
  sni = true;
  ciphers = 0x1301 ∷ [];
  extensions = 0 ∷ [];
  alpn = [];
  sig_algs = [];
}

parse_client_hello-a_buffer : parse_client_hello a_buffer ≡ some a_hello
unfolding parse_client_hello read_hello read_offer read_tail read_extensions read_extension
    read_body read_ciphers read_u16
parse_client_hello-a_buffer = refl

a_buffer-IsByte : All IsByte a_buffer
a_buffer-IsByte = ground arith

parse_client_hello-IsHello_example : IsHello a_hello
parse_client_hello-IsHello_example =
    parse_client_hello-IsHello a_buffer a_hello a_buffer-IsByte parse_client_hello-a_buffer

loops_fuel_example :
    ((cs_len i p : ℕ)
      → read_ciphers 100 a_buffer cs_len i p ≡ read_ciphers (length a_buffer) a_buffer cs_len i p)
    × ((body list_len i best : ℕ)
        → best_version 100 a_buffer body 50 list_len i best
          ≡ best_version (length a_buffer) a_buffer body 50 list_len i best)
    × ((q : ℕ) → read_alpn 100 a_buffer 50 q ≡ read_alpn (length a_buffer) a_buffer 50 q)
    × ((q : ℕ) → read_sig_algs 100 a_buffer 50 q ≡ read_sig_algs (length a_buffer) a_buffer 50 q)
    × ((p : ℕ) (info : ClientHelloInfo)
        → read_extensions 100 a_buffer 50 p info
          ≡ read_extensions (length a_buffer) a_buffer 50 p info)
loops_fuel_example = loops_fuel 100 a_buffer 50 (omega arith) (omega arith)

abbrev two_ciphers : ClientHelloInfo
two_ciphers = record a_hello { ciphers = 0x1301 ∷ 0x1302 ∷ [] }

abbrev shuffled : ClientHelloInfo
shuffled = record a_hello { ciphers = 0x0a0a ∷ 0x1302 ∷ 0x1301 ∷ [] }

same_ciphers : Permᴰ (without_grease two_ciphers.ciphers) (without_grease shuffled.ciphers)
unfolding is_grease
same_ciphers = Permᴰ.swap refl refl

same_extensions : Permᴰ (without_grease two_ciphers.extensions) (without_grease shuffled.extensions)
unfolding is_grease
same_extensions = Permᴰ.cons refl Permᴰ.nil

compute_ja4_perm_example :
    compute_ja4 toy_crypto two_ciphers tcp ≡ compute_ja4 toy_crypto shuffled tcp
compute_ja4_perm_example =
    compute_ja4_perm toy_crypto two_ciphers shuffled tcp refl refl refl refl same_ciphers
      same_extensions
