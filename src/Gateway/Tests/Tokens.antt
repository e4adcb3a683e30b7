-- ===== src/Gateway/Tests/Tokens.antt =====
-- Sessions and wallets on concrete requests.
use x402_health_oracle.Prelude.{
  ℕ, ◌+◌, ◌≡◌, ◌≢◌, refl, ◌↔◌, ◌⊎◌, ◌&&◌, not, true, false, Option, none, some, [], ◌∷◌, ◌++◌,
  arith, Text, codes, replicate, length, ◌%◌, ◌*◌, to_lower, text_Eq, ◌===◌, if◌then◌else◌,
}
use x402_health_oracle.Prelude.Int.{pos}
use x402_health_oracle.Crypto.{toy_crypto}
use x402_health_oracle.Encoding.Hex.{to_hex, hex_digit, nibble, is_hex}
use x402_health_oracle.Double.{num}
use x402_health_oracle.Double.Fixed.{Fixed, fixed_Double, Fixed-IsOrdered}
use x402_health_oracle.Rhythm.Session.{get_trust_status}
use x402_health_oracle.Seal.{
  SealData, out_of_window, accept, should_trigger_argon2, expected_sig, check_seal,
  verify_entropy_seal,
}
use x402_health_oracle.PrivacyPass.Oprf.{Suite}
use x402_health_oracle.PrivacyPass.Issuer.{Issuer}
use x402_health_oracle.Wallet.{Bindings, validate_signature_structure, lookup_wallet}
use x402_health_oracle.Identity.{Signatures, is_address, verify_eip191}
use x402_health_oracle.Gateway.Cache.Dict.{lru, lru-IsCache}
use x402_health_oracle.Gateway.Request.{session_id_of, default_session}
use x402_health_oracle.Gateway.Enclave.{
  Session, KeyBytes, EnclaveState, Visit, no_session, replay_attack, served, try_redeem_token,
  is_consumed, claimed, seal_result, admit, enter, enclave,
}
use x402_health_oracle.Gateway.Enclave.Replay.{is_accepted, enclave_no_replay}
use x402_health_oracle.Gateway.Enclave.Served.{last_of, enclave_iff}
use x402_health_oracle.Gateway.Handshake.{HandshakeState, on_pqc_response}
use x402_health_oracle.Gateway.Registry.{text, bind_route, zk_issue}
use x402_health_oracle.Gateway.Registry.Binding.{
  is_bound, ReadsAs, is_text, binding_of, bind_route_iff,
}
use x402_health_oracle.Gateway.Registry.Sessions.{
  IsNoSession, here, after, handshake, zk_issue_never_all,
}
use x402_health_oracle.Gateway.Tests.{empty_store, a_guard, an_ip, plain, a_measure}
use x402_health_oracle.Tls.Resolve.{one_text}
use x402_health_oracle.Gateway.Request.{Request}

-- The first packet of the session 'default', sealed 1 s ago by the clock of the server.
abbrev a_seal : SealData Fixed
a_seal = record {
  sig = some (expected_sig toy_crypto 5 (codes "default") 1 (codes "n"));
  ts = some (pos 5000000000);
  seq = some 1;
}

abbrev read_header : Text → Option (SealData Fixed)
read_header _ = some a_seal

abbrev read_seq : Text → Option Fixed
read_seq _ = some (some (pos 1000))

readers_agree :
    (h : Text) (data_ : SealData Fixed) (n : ℕ)
    → read_header h ≡ some data_
    → data_.seq ≡ some n
    → read_seq h ≡ some (num n)
unfolding fixed_Double
readers_agree h data_ n e e' = grind arith

abbrev toy_bytes : KeyBytes toy_crypto
toy_bytes = record { to_bytes = λ k. k ∷ []; of_bytes = λ b. length b }

abbrev no_suite : Suite
no_suite = record {
  Element = ℕ;
  order = 3;
  base = 1;
  multiply = λ e a. e * a % 3;
  hash_to_curve = λ m dst. 1;
  to_bytes = λ e. e ∷ [];
  point_from_hex = λ s. none;
  is_valid = λ e. true;
  is0 = λ e. false;
  invert = λ a. a;
  sha384 = λ m. m;
}

abbrev an_issuer : Issuer
an_issuer = record {
  sk = 1;
  public_key_hex = codes "00";
  max_batch = 10;
  spent_ttl_ms = 1000;
  max_spent = 10;
  spent = [];
  issued = 0;
  redeemed = 0;
  rejected = 0;
  last_prune = 0;
}

abbrev a_session : Session toy_crypto
a_session = record { key = 5; counter = 0 }

abbrev an_enclave : EnclaveState lru toy_crypto
an_enclave = record {
  sessions = record { max = 9; ttl = 60000; entries = (default_session, (a_session, 10)) ∷ [] };
  sequences = empty_store 60000;
  ratchet_cycles = 0;
  issuer = an_issuer;
}

abbrev a_packet : Request
a_packet = record {
  remote = some an_ip;
  headers =
      ("x-silicon-dna-seal", one_text (codes "h"))
      ∷ ("x-silicon-dna-noise", one_text (codes "n"))
      ∷ [];
}

abbrev visit : ℕ → Visit Fixed
visit now = record {
  ip = an_ip;
  request = a_packet;
  now = now;
  later = now;
  random = some (pos 1);
  armed = true;
  has_pow = true;
}

enclave_iff_example :
    ((enclave toy_bytes no_suite read_header read_seq a_guard an_enclave [] (visit 6000)).2
      ≡ served)
    ↔ ((entry : Session toy_crypto) × (lru.get an_enclave.sessions (session_id_of a_packet) 6000
          ≡ some entry)
        × (is_consumed (claimed read_seq (visit 6000)) (last_of an_enclave (visit 6000)) ≡ false)
        × ((seal_result {k = toy_crypto} read_header [] entry
              (last_of an_enclave (visit 6000) + 1)
              (visit 6000)).valid
            ≡ true)
        × (((true
                && (not true
                    && (seal_result {k = toy_crypto} read_header [] entry
                        (last_of an_enclave (visit 6000) + 1)
                        (visit 6000)).requires_argon2))
              ≡ false)
            ⊎ ((try_redeem_token no_suite an_issuer a_packet 6000 6000).1 ≡ some true)))
enclave_iff_example =
    enclave_iff toy_bytes no_suite read_header read_seq a_guard an_enclave [] (visit 6000)

a_packet-accepted :
    is_accepted
      (enclave toy_bytes no_suite read_header read_seq a_guard an_enclave [] (visit 6000)).2
    ≡ true
unfolding enclave enter admit verify_entropy_seal check_seal out_of_window accept
    should_trigger_argon2 expected_sig fixed_Double to_hex hex_digit get_trust_status session_id_of
    is_hex
a_packet-accepted = refl

enclave_no_replay_example :
    let s' =
      (enclave toy_bytes no_suite read_header read_seq a_guard an_enclave [] (visit 6000)).1 in
    let reply = (enclave toy_bytes no_suite read_header read_seq a_guard s' [] (visit 6500)).2 in
    (reply ≡ no_session) ⊎ (reply ≡ replay_attack)
enclave_no_replay_example =
    enclave_no_replay toy_bytes no_suite read_header read_seq lru-IsCache Fixed-IsOrdered
      readers_agree a_guard a_guard an_enclave [] [] (visit 6000) (visit 6500) a_packet-accepted
      refl refl (omega arith) (omega arith)

abbrev toy_signatures : Signatures
toy_signatures = record {
  keccak_256 = λ m. replicate 32 (length m % 256);
  sha256 = λ m. replicate 32 0;
  recover_public_key = λ rs v digest. some (replicate 65 4);
  ml_dsa65_verify = λ signature message key. some true;
}

abbrev no_bindings : Bindings
no_bindings = record { by_wallet = []; by_behavioral_hash = [] }

abbrev a_wallet : Text
a_wallet = codes "0x" ++ replicate 40 b'4'

abbrev a_signature : Text
a_signature = codes "0x" ++ replicate 130 b'1'

bind_route_iff_example :
    let (b', reply) =
      bind_route toy_crypto toy_signatures no_bindings 5 a_measure
        (text a_wallet)
        (text a_signature)
        (text (codes "c"))
        an_ip
        7 in
    ((is_bound reply ≡ true) ↔ (
      ReadsAs (text (codes "c")) (codes "c")
      × (is_text (text a_wallet) ≡ true)
      × (is_text (text a_signature) ≡ true)
      × (is_address a_wallet ≡ true)
      × (validate_signature_structure a_signature ≡ true)
      × (verify_eip191 toy_signatures (codes "c") a_signature ≡ some (to_lower a_wallet))))
    × (lookup_wallet b' a_wallet ≡ (
        if is_bound reply && to_lower a_wallet === to_lower a_wallet
        then some (record (binding_of toy_crypto 5 a_measure a_wallet an_ip 7) {
          wallet = to_lower a_wallet;
        })
        else lookup_wallet no_bindings a_wallet))
bind_route_iff_example =
    bind_route_iff toy_crypto toy_signatures no_bindings 5 a_measure (text a_wallet)
      (text a_signature) (text (codes "c")) an_ip 7 a_wallet

abbrev no_handshake : HandshakeState lru toy_crypto
no_handshake = record { sessions = empty_store 60000; pqc_cooldown_until = 0 }

abbrev shaken : HandshakeState lru toy_crypto
shaken = (on_pqc_response no_handshake 1088 5 (1 ∷ 2 ∷ []) 20).0

address-IsNoSession : IsNoSession an_ip
unfolding is_hex nibble
address-IsNoSession = record { no_token = refl; no_default = λ e. cc }

zk_issue_never_all_example :
    (zk_issue lru shaken.sessions 5 a_measure plain an_ip true (1 ∷ []) 30 []).1.layers_bitmap ≢ 255
zk_issue_never_all_example =
    zk_issue_never_all lru-IsCache toy_bytes no_handshake.sessions shaken.sessions 5 a_measure plain
      an_ip true (1 ∷ []) 30 [] address-IsNoSession (λ u. refl)
      (after here
        (handshake no_handshake 1088 5 (1 ∷ 2 ∷ []) 20 ((omega arith, (omega arith, tt)))))
