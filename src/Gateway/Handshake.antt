-- ===== src/Gateway/Handshake.antt =====
-- The post-quantum handshake of gateway/server.ts over a web socket. The key encapsulation is a
-- parameter: `secret` is what it decapsulates, and `token` the 16 random bytes of the session. The
-- decapsulation is waited for: `now` is the time before it, `later` the time after it.
use x402_health_oracle.Prelude.{ℕ, ◌+◌, ◌==◌, if◌then◌else◌, Text, Option, none, some}
use x402_health_oracle.Crypto.{Crypto}
use x402_health_oracle.Encoding.Hex.{Bytes, to_hex}
use x402_health_oracle.Gateway.Cache.{Cache}
use x402_health_oracle.Gateway.Request.{default_session}
use x402_health_oracle.Gateway.Enclave.{Session}

module _ (c : Cache) (k : Crypto) where
  pub record HandshakeState : Type 0 where
    pub sessions : c.Store (Session k)
    pub pqc_cooldown_until : ℕ

abbrev pub ciphertext_bytes : ℕ
ciphertext_bytes = 1088

abbrev pub new_session : {k : Crypto} → k.Secret → Session k
new_session secret = record { key = secret; counter = 0 }

module _ {c : Cache} {k : Crypto} where
  -- A `PQC_RESP` whose ciphertext has `size` bytes. The session gets its token, and the name
  -- 'default' as well.
  unfoldable pub on_pqc_response :
      HandshakeState c k → ℕ → k.Secret → Bytes → ℕ → HandshakeState c k × Option Text
  on_pqc_response s size secret token later =
      let sid = to_hex token in
      if size == ciphertext_bytes
      then (
        record {
          sessions =
              c.set (c.set s.sessions sid (new_session {k = k} secret) later) default_session
                (new_session {k = k} secret) later;
          pqc_cooldown_until = later + 50;
        },
        some sid,
      )
      else (s, none)
