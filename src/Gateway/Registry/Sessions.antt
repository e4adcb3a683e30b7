-- ===== src/Gateway/Registry/Sessions.antt =====
-- What the layers of a proof say of the post-quantum session: the sessions are stored under tokens
-- and the name 'default', and looked up by the address of the client.
use x402_health_oracle.Prelude.{
  ℕ, ◌+◌, ◌≡◌, ◌≢◌, ◌⊎◌, refl, ap, sym, ◌∙◌, Bool, true, false, inl, inr, Bool-cases, none, ◌==◌,
  Text, arith, All, leb, text_Eq,
}
use x402_health_oracle.Prelude.Dict.{is_some}
use x402_health_oracle.Crypto.{Crypto}
use x402_health_oracle.Encoding.Hex.{Bytes, IsByte, to_hex, is_hex, is_hex-to_hex}
use x402_health_oracle.Double.{Double}
use x402_health_oracle.Zk.{LayerResult, Issued, layers_to_int, generate_zk_proof, issue_proof}
use x402_health_oracle.Zk.Layers.{layers_passed, layers_to_int_lem}
use x402_health_oracle.Gateway.Cache.{Cache, IsCache}
use x402_health_oracle.Gateway.Request.{Request, default_session, session_id_of}
use x402_health_oracle.Gateway.Enclave.{Session, KeyBytes, EnclaveState, Visit, ratchet}
use x402_health_oracle.Gateway.Handshake.{HandshakeState, on_pqc_response}
use x402_health_oracle.Gateway.Registry.{Measured, layers_of, zk_issue}

-- The calls that change the sessions: a handshake, an accepted packet, and a look-up.
module _ (W : Type 0) ⦃d : Double W⦄ (c : Cache) {k : Crypto} (bytes : KeyBytes k) where
  pub data SessionStep : c.Store (Session k) → c.Store (Session k) → Type 0 where
    handshake :
        (s : HandshakeState c k) (size : ℕ) (secret : k.Secret) (token : Bytes) (later : ℕ)
        → All IsByte token
        → SessionStep s.sessions (on_pqc_response s size secret token later).0.sessions
    packet :
        (s : EnclaveState c k) (entry : Session k) (v : Visit W)
        → SessionStep s.sessions (ratchet bytes s (session_id_of v.request) entry v).sessions
    look_up : (s : c.Store (Session k)) (key : Text) (now : ℕ) → SessionStep s (c.touch s key now)

  pub data SessionReach (s : c.Store (Session k)) : c.Store (Session k) → Type 0 where
    here : SessionReach s s
    after : {t u : c.Store (Session k)} → SessionReach s t → SessionStep t u → SessionReach s u

session_id-name :
    (r : Request) → (session_id_of r ≡ default_session) ⊎ (is_hex (session_id_of r) ≡ true)
unfolding session_id_of
session_id-name r = ground arith

-- An address is no name of a session: it has a dot or a colon.
pub record IsNoSession (ip : Text) : Type 0 where
  pub no_token : is_hex ip ≡ false
  pub no_default : ip ≢ default_session

hex_ne : (name ip : Text) → is_hex name ≡ true → is_hex ip ≡ false → name ≢ ip
hex_ne name ip h h' e = cc (ap is_hex e)

session_id_ne : (r : Request) (ip : Text) → IsNoSession ip → session_id_of r ≢ ip
session_id_ne r ip alien e = elim (session_id-name r) [
  | inl default ↦ alien.no_default (sym e ∙ default)
  | inr hex ↦ hex_ne (session_id_of r) ip hex alien.no_token e
]

module _ {c : Cache} (laws : IsCache c) {k : Crypto} where
  abbrev pub IsAbsent : Text → c.Store (Session k) → Type 0
  IsAbsent ip s = (u : ℕ) → c.get s ip u ≡ none

  set-IsAbsent :
      (s : c.Store (Session k)) (name ip : Text) (v : Session k) (t : ℕ)
      → name ≢ ip
      → IsAbsent ip s
      → IsAbsent ip (c.set s name v t)
  set-IsAbsent s name ip v t ne absent u = elim (laws.get-set_ne s name ip v t u ne) [
    | inl same ↦ same ∙ absent u
    | inr lost ↦ lost
  ]

  mutate-IsAbsent :
      (s : c.Store (Session k)) (name ip : Text) (f : Session k → Session k)
      → IsAbsent ip s
      → IsAbsent ip (c.mutate s name f)
  mutate-IsAbsent s name ip f absent u = ground (arith, laws.get-mutate s name ip f u, absent u)

  handshake-IsAbsent :
      (ip : Text) (s : HandshakeState c k) (size : ℕ) (secret : k.Secret) (token : Bytes)
      (later : ℕ)
      → IsNoSession ip
      → All IsByte token
      → IsAbsent ip s.sessions
      → IsAbsent ip (on_pqc_response s size secret token later).0.sessions
  unfolding on_pqc_response
  handshake-IsAbsent ip s size secret token later alien is_byte absent =
      let entry : Session k = record { key = secret; counter = 0 } in
      let sid = to_hex token in
      let first =
        set-IsAbsent s.sessions sid ip entry later
          (hex_ne sid ip (is_hex-to_hex token is_byte) alien.no_token) absent in
      let both =
        set-IsAbsent (c.set s.sessions sid entry later) default_session ip entry later
          (λ e. alien.no_default (sym e)) first in
      elim (Bool-cases (size == 1088)) [ inl right ↦ rw right both | inr wrong ↦ rw wrong absent ]

  module _ {W : Type 0} ⦃d : Double W⦄ (bytes : KeyBytes k) where
    packet-IsAbsent :
        (ip : Text) (s : EnclaveState c k) (entry : Session k) (v : Visit W)
        → IsNoSession ip
        → IsAbsent ip s.sessions
        → IsAbsent ip (ratchet bytes s (session_id_of v.request) entry v).sessions
    unfolding ratchet
    packet-IsAbsent ip s entry v alien absent =
        let sid = session_id_of v.request in
        let ne = session_id_ne v.request ip alien in
        elim (Bool-cases (leb 50 (entry.counter + 1))) [
          | inl turn ↦ rw turn (set-IsAbsent s.sessions sid ip _ v.now ne absent)
          | inr count ↦ rw count (mutate-IsAbsent s.sessions sid ip _ absent)
        ]

    SessionStep-IsAbsent :
        (ip : Text) {s t : c.Store (Session k)}
        → IsNoSession ip
        → SessionStep W c bytes s t
        → IsAbsent ip s
        → IsAbsent ip t
    SessionStep-IsAbsent ip alien (handshake s size secret token later b) absent =
        handshake-IsAbsent ip s size secret token later alien b absent
    SessionStep-IsAbsent ip alien (packet s entry v) absent =
        packet-IsAbsent ip s entry v alien absent
    SessionStep-IsAbsent ip alien (look_up s key now) absent =
        λ u. laws.get-touch s key ip now u ∙ absent u

    SessionReach-IsAbsent :
        (ip : Text) {s t : c.Store (Session k)}
        → IsNoSession ip
        → SessionReach W c bytes s t
        → IsAbsent ip s
        → IsAbsent ip t
    SessionReach-IsAbsent ip alien here absent = absent
    SessionReach-IsAbsent ip alien (after r step) absent =
        SessionStep-IsAbsent ip alien step (SessionReach-IsAbsent ip alien r absent)

passed-ne_eight : (l : LayerResult) → l.l0_pqc ≡ false → layers_passed l ≢ 8
passed-ne_eight l h = ground arith

module _ {c : Cache} (laws : IsCache c) {k : Crypto} {W : Type 0} ⦃d : Double W⦄
    (bytes : KeyBytes k) where
  bitmap_of :
      (sessions : c.Store (Session k)) (server_key : k.Secret) (m : Measured W) (r : Request)
      (ip : Text) (has_pow : Bool) (random : Bytes) (now : ℕ) (issued : Issued)
      → (zk_issue c sessions server_key m r ip has_pow random now issued).1.layers_bitmap
        ≡ layers_to_int (layers_of c sessions m ip has_pow now)
  unfolding zk_issue issue_proof generate_zk_proof
  bitmap_of sessions server_key m r ip has_pow random now issued = refl

  pqc_layer :
      (sessions : c.Store (Session k)) (m : Measured W) (ip : Text) (has_pow : Bool) (now : ℕ)
      → c.get sessions ip now ≡ none
      → layers_passed (layers_of c sessions m ip has_pow now) ≢ 8
  unfolding layers_of
  pqc_layer sessions m ip has_pow now e =
      passed-ne_eight (layers_of c sessions m ip has_pow now) (ap is_some e)

  -- A client whose address is neither a hexadecimal text nor the name "default", and under
  -- which no session stood at the start, is never issued a proof of all eight layers, whatever
  -- handshakes, packets and look-ups there were: sessions stand under tokens and the name
  -- "default", and the layer of the session asks for the address. It takes the laws of the
  -- caches.
  pub zk_issue_never_all :
      (start sessions : c.Store (Session k)) (server_key : k.Secret) (m : Measured W) (r : Request)
      (ip : Text) (has_pow : Bool) (random : Bytes) (now : ℕ) (issued : Issued)
      → IsNoSession ip
      → IsAbsent laws {k = k} ip start
      → SessionReach W c bytes start sessions
      → (zk_issue c sessions server_key m r ip has_pow random now issued).1.layers_bitmap ≢ 255
  zk_issue_never_all start sessions server_key m r ip has_pow random now issued alien absent reach
        h =
      pqc_layer sessions m ip has_pow now
        (SessionReach-IsAbsent laws bytes ip alien reach absent now)
        ((layers_to_int_lem (layers_of c sessions m ip has_pow now)).2.0
          (sym (bitmap_of sessions server_key m r ip has_pow random now issued) ∙ h))
