-- ===== src/Tls/Parse.antt =====
-- `parseClientHello` of gateway/src/services/tlsFingerprint.ts. A buffer is its bytes; `none` is
-- the null of an early return or of the exception that a read past the end throws. Each loop goes
-- forward in the buffer, and its fuel is the length of the buffer.
use x402_health_oracle.Prelude.{
  ℕ, zero, suc, ◌+◌, ◌*◌, ◌%◌, true, false, ◌&&◌, not, Option, none, some, List, [], ◌∷◌, ◌++◌, map,
  length, ltb, leb, ◌==◌, if◌then◌else◌, get_elem?, take, drop, Text,
}
use x402_health_oracle.Encoding.Hex.{Bytes}
use x402_health_oracle.PrivacyPass.Oprf.{◌>>=◌}
use x402_health_oracle.Tls.{ClientHelloInfo, is_grease}

abbrev pub lesser : ℕ → ℕ → ℕ
lesser a b = if leb a b then a else b

-- `buf.readUInt16BE(p)`
unfoldable pub read_u16 : Bytes → ℕ → Option ℕ
read_u16 buf p = do high ← get_elem? buf p; low ← get_elem? buf (p + 1); some (high * 256 + low)

-- The ciphers, and the place after them.
unfoldable pub read_ciphers : ℕ → Bytes → ℕ → ℕ → ℕ → Option (List ℕ × ℕ)
read_ciphers zero buf cs_len i p = some ([], p)
read_ciphers (suc fuel) buf cs_len i p = elim (ltb (i + 1) cs_len && ltb (p + 1) (length buf)) [
  | false ↦ some ([], p)
  | true ↦ do
    cipher ← read_u16 buf p
    (ciphers, end) ← read_ciphers fuel buf cs_len (i + 2) (p + 2)
    some (cipher ∷ ciphers, end)
]

-- `!isGrease(v) && v > best && v <= 0x0304`
abbrev pub better : ℕ → ℕ → ℕ
better best v = if not (is_grease v) && (ltb best v && leb v 0x0304) then v else best

-- The best of the supported versions from the i-th byte of the list on. The test lets the second
-- byte of a version be the one after the extension.
unfoldable pub best_version : ℕ → Bytes → ℕ → ℕ → ℕ → ℕ → ℕ → Option ℕ
best_version zero buf body body_end list_len i best = some best
best_version (suc fuel) buf body body_end list_len i best =
    elim (ltb (i + 1) list_len && ltb (body + 1 + i + 1) (body_end + 1)) [
      | false ↦ some best
      | true ↦ do
        v ← read_u16 buf (body + 1 + i)
        best_version fuel buf body body_end list_len (i + 2) (better best v)
    ]

-- `buf.toString('ascii', q, q + l)` drops the eighth bit.
abbrev pub ascii : Bytes → ℕ → ℕ → Text
ascii buf q l = map (λ b. b % 128) (take l (drop q buf))

unfoldable pub read_alpn : ℕ → Bytes → ℕ → ℕ → Option (List Text)
read_alpn zero buf body_end q = some []
read_alpn (suc fuel) buf body_end q = elim (ltb q body_end) [
  | false ↦ some []
  | true ↦ do
    l ← get_elem? buf q
    elim (ltb body_end (q + 1 + l)) [
      | true ↦ some []
      | false ↦ do
        protocols ← read_alpn fuel buf body_end (q + 1 + l)
        some (ascii buf (q + 1) l ∷ protocols)
    ]
]

unfoldable pub read_sig_algs : ℕ → Bytes → ℕ → ℕ → Option (List ℕ)
read_sig_algs zero buf body_end q = some []
read_sig_algs (suc fuel) buf body_end q = elim (ltb (q + 1) body_end) [
  | false ↦ some []
  | true ↦ do
    alg ← read_u16 buf q
    algs ← read_sig_algs fuel buf body_end (q + 2)
    some (alg ∷ algs)
]

-- What one extension says, put into the hello so far.
unfoldable pub read_versions : Bytes → ℕ → ℕ → ClientHelloInfo → Option ClientHelloInfo
unfolding best_version
read_versions buf body body_end info = if not (ltb body body_end) then some info else do
  list_len ← get_elem? buf body
  best ← best_version (length buf) buf body body_end list_len 0 0
  some (if best == 0 then info else record info { tls_version = best })

unfoldable pub read_body : Bytes → ℕ → ℕ → ℕ → ClientHelloInfo → Option ClientHelloInfo
unfolding read_alpn read_sig_algs
read_body buf type body body_end info =
    if type == 0x0000
    then some (record info { sni = true })
    else if type == 0x002b
    then read_versions buf body body_end info
    else if type == 0x0010
    then (read_alpn (length buf) buf body_end (body + 2) >>= λ protocols.
        some (record info { alpn = info.alpn ++ protocols }))
    else if type == 0x000d
    then (read_sig_algs (length buf) buf body_end (body + 2) >>= λ algs.
        some (record info { sig_algs = info.sig_algs ++ algs }))
    else some info

-- The extension at p: the hello with it, and the place after it.
unfoldable pub read_extension : Bytes → ℕ → ℕ → ClientHelloInfo → Option (ClientHelloInfo × ℕ)
unfolding read_body
read_extension buf ext_end p info = do
  type ← read_u16 buf p
  len ← read_u16 buf (p + 2)
  let body_end = lesser (p + 4 + len) ext_end
  next ←
      read_body buf type (p + 4) body_end
        (record info { extensions = info.extensions ++ type ∷ [] })
  some (next, body_end)

unfoldable pub read_extensions : ℕ → Bytes → ℕ → ℕ → ClientHelloInfo → Option ClientHelloInfo
unfolding read_extension
read_extensions zero buf ext_end p info = some info
read_extensions (suc fuel) buf ext_end p info = elim (leb (p + 4) ext_end) [
  | false ↦ some info
  | true ↦ do
    (next, end) ← read_extension buf ext_end p info
    read_extensions fuel buf ext_end end next
]

-- From the extensions on.
unfoldable pub read_tail : Bytes → ℕ → ClientHelloInfo → Option ClientHelloInfo
unfolding read_extensions
read_tail buf p info = if ltb (length buf) (p + 2) then some info else do
  ext_total ← read_u16 buf p
  read_extensions (length buf) buf (lesser (p + 2 + ext_total) (length buf)) (p + 2) info

-- From the length of the cipher list on.
unfoldable pub read_offer : Bytes → ℕ → ℕ → Option ClientHelloInfo
unfolding read_ciphers read_tail
read_offer buf version p = do
  cs_len ← read_u16 buf p
  (ciphers, q) ← read_ciphers (length buf) buf cs_len 0 (p + 2)
  comp_len ← get_elem? buf q
  read_tail buf (q + 1 + comp_len) (record {
    tls_version = version;
    sni = false;
    ciphers = ciphers;
    extensions = [];
    alpn = [];
    sig_algs = [];
  })

-- From the handshake header at `start` on: 4 bytes, the version, 32 random bytes, the session id.
unfoldable pub read_hello : Bytes → ℕ → Option ClientHelloInfo
unfolding read_offer
read_hello buf start = do
  type ← get_elem? buf start
  version ← if type == 0x01 then read_u16 buf (start + 4) else none
  sid_len ← get_elem? buf (start + 38)
  read_offer buf version (start + 39 + sid_len)

unfoldable pub parse_client_hello : Bytes → Option ClientHelloInfo
unfolding read_hello
parse_client_hello buf = elim (get_elem? buf 0) [
  | none ↦ none
  | some first ↦
      if first == 0x16
      then (if ltb (length buf) 5 then none else read_hello buf 5)
      else read_hello buf 0
]
