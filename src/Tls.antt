-- ===== src/Tls.antt =====
-- gateway/src/services/tlsFingerprint.ts: what a ClientHello says, and the GREASE values.
pub mod Ja4
pub mod Parse
pub mod Resolve
pub mod Wire
pub mod Fuel
pub mod Numbers
pub mod Fields
mod Tests
use x402_health_oracle.Prelude.{ℕ, Bool, List, [], ◌∷◌, not, keep, any, ◌==◌, Text}

pub record ClientHelloInfo : Type 0 where
  pub tls_version : ℕ
  pub sni : Bool
  pub ciphers : List ℕ
  pub extensions : List ℕ
  pub alpn : List Text
  pub sig_algs : List ℕ

abbrev pub grease : List ℕ
grease =
    0x0a0a ∷ 0x1a1a ∷ 0x2a2a ∷ 0x3a3a ∷ 0x4a4a ∷ 0x5a5a ∷ 0x6a6a ∷ 0x7a7a ∷ 0x8a8a ∷ 0x9a9a ∷ 0xaaaa
    ∷ 0xbaba ∷ 0xcaca ∷ 0xdada ∷ 0xeaea ∷ 0xfafa ∷ []

unfoldable pub is_grease : ℕ → Bool
is_grease v = any (λ g. g == v) grease

-- `xs.filter(x => !isGrease(x))`
abbrev pub without_grease : List ℕ → List ℕ
without_grease xs = keep (λ v. not (is_grease v)) xs
