-- ===== src/Tls/Fuel.antt =====
-- The loops of the parser end.
use x402_health_oracle.Prelude.{
  ℕ, zero, suc, ◌+◌, ◌≤◌, ◌≡◌, refl, some, length, arith, Option-cases, inl, inr, get_elem?,
}
use x402_health_oracle.Encoding.Hex.{Bytes}
use x402_health_oracle.Tls.{ClientHelloInfo}
use x402_health_oracle.Tls.Parse.{
  lesser, read_u16, read_ciphers, best_version, better, read_alpn, read_sig_algs, read_extension,
  read_extensions,
}

read_ciphers_fuel :
    (f g : ℕ) (buf : Bytes) (cs_len i p : ℕ)
    → length buf ≤ p + f
    → length buf ≤ p + g
    → read_ciphers f buf cs_len i p ≡ read_ciphers g buf cs_len i p
unfolding read_ciphers
read_ciphers_fuel zero zero buf cs_len i p h k = refl
read_ciphers_fuel zero (suc g) buf cs_len i p h k = ground arith
read_ciphers_fuel (suc f) zero buf cs_len i p h k = ground arith
read_ciphers_fuel (suc f) (suc g) buf cs_len i p h k =
    ground (arith, read_ciphers_fuel f g buf cs_len (i + 2) (p + 2) (omega arith) (omega arith))

best_version_fuel :
    (f g : ℕ) (buf : Bytes) (body body_end list_len i best : ℕ)
    → body_end ≤ body + i + f
    → body_end ≤ body + i + g
    → best_version f buf body body_end list_len i best
      ≡ best_version g buf body body_end list_len i best
unfolding best_version
best_version_fuel zero zero buf body body_end list_len i best h k = refl
best_version_fuel zero (suc g) buf body body_end list_len i best h k = ground arith
best_version_fuel (suc f) zero buf body body_end list_len i best h k = ground arith
best_version_fuel (suc f) (suc g) buf body body_end list_len i best h k =
    elim (Option-cases (read_u16 buf (body + 1 + i))) [
      | inl nothing ↦ ground arith
      | inr (v, there) ↦ ground (
        arith,
        best_version_fuel f g buf body body_end list_len (i + 2) (better best v) (omega arith)
            (omega arith),
      )
    ]

read_alpn_fuel :
    (f g : ℕ) (buf : Bytes) (body_end q : ℕ)
    → body_end ≤ q + f
    → body_end ≤ q + g
    → read_alpn f buf body_end q ≡ read_alpn g buf body_end q
unfolding read_alpn
read_alpn_fuel zero zero buf body_end q h k = refl
read_alpn_fuel zero (suc g) buf body_end q h k = ground arith
read_alpn_fuel (suc f) zero buf body_end q h k = ground arith
read_alpn_fuel (suc f) (suc g) buf body_end q h k = elim (Option-cases (get_elem? buf q)) [
  | inl nothing ↦ ground arith
  | inr (l, there) ↦
      ground (arith, read_alpn_fuel f g buf body_end (q + 1 + l) (omega arith) (omega arith))
]

read_sig_algs_fuel :
    (f g : ℕ) (buf : Bytes) (body_end q : ℕ)
    → body_end ≤ q + f
    → body_end ≤ q + g
    → read_sig_algs f buf body_end q ≡ read_sig_algs g buf body_end q
unfolding read_sig_algs
read_sig_algs_fuel zero zero buf body_end q h k = refl
read_sig_algs_fuel zero (suc g) buf body_end q h k = ground arith
read_sig_algs_fuel (suc f) zero buf body_end q h k = ground arith
read_sig_algs_fuel (suc f) (suc g) buf body_end q h k =
    ground (arith, read_sig_algs_fuel f g buf body_end (q + 2) (omega arith) (omega arith))

lesser-le : (a b c : ℕ) → a ≤ b → a ≤ c → a ≤ lesser b c
lesser-le a b c h k = ground arith

read_extension-end :
    (buf : Bytes) (ext_end p : ℕ) (info next : ClientHelloInfo) (end : ℕ)
    → p + 4 ≤ ext_end
    → read_extension buf ext_end p info ≡ some (next, end)
    → p + 4 ≤ end
unfolding read_extension
read_extension-end buf ext_end p info next end h e = elim (Option-cases (read_u16 buf p)) [
  | inl nothing ↦ ground arith
  | inr (type, _) ↦ elim (Option-cases (read_u16 buf (p + 2))) [
    | inl nothing ↦ ground arith
    | inr (len, _) ↦ ground (arith, lesser-le (p + 4) (p + 4 + len) ext_end (omega arith) h)
  ]
]

read_extensions_fuel :
    (f g : ℕ) (buf : Bytes) (ext_end p : ℕ) (info : ClientHelloInfo)
    → ext_end ≤ p + f
    → ext_end ≤ p + g
    → read_extensions f buf ext_end p info ≡ read_extensions g buf ext_end p info
unfolding read_extensions
read_extensions_fuel zero zero buf ext_end p info h k = refl
read_extensions_fuel zero (suc g) buf ext_end p info h k = ground arith
read_extensions_fuel (suc f) zero buf ext_end p info h k = ground arith
read_extensions_fuel (suc f) (suc g) buf ext_end p info h k =
    elim (Option-cases (read_extension buf ext_end p info)) [
      | inl nothing ↦ ground arith
      | inr ((next, end), there) ↦ ground (
        arith,
        read_extension-end buf ext_end p info next end,
        read_extensions_fuel f g buf ext_end end next,
      )
    ]

-- No loop of the parser runs out of fuel: for each, as many rounds as the buffer has bytes, from
-- wherever it starts, give what any greater number of rounds gives. The loops over a body and that
-- over the extensions stop at an end that is within the buffer.
pub loops_fuel :
    (f : ℕ) (buf : Bytes) (end : ℕ)
    → length buf ≤ f
    → end ≤ length buf
    → ((cs_len i p : ℕ) → read_ciphers f buf cs_len i p ≡ read_ciphers (length buf) buf cs_len i p)
      × ((body list_len i best : ℕ)
          → best_version f buf body end list_len i best
            ≡ best_version (length buf) buf body end list_len i best)
      × ((q : ℕ) → read_alpn f buf end q ≡ read_alpn (length buf) buf end q)
      × ((q : ℕ) → read_sig_algs f buf end q ≡ read_sig_algs (length buf) buf end q)
      × ((p : ℕ) (info : ClientHelloInfo)
          → read_extensions f buf end p info ≡ read_extensions (length buf) buf end p info)
loops_fuel f buf end h k =
    let n = length buf in
    (
      λ cs_len i p. read_ciphers_fuel f n buf cs_len i p (omega arith) (omega arith),
      λ body list_len i best.
          best_version_fuel f n buf body end list_len i best (omega arith) (omega arith),
      λ q. read_alpn_fuel f n buf end q (omega arith) (omega arith),
      λ q. read_sig_algs_fuel f n buf end q (omega arith) (omega arith),
      λ p info. read_extensions_fuel f n buf end p info (omega arith) (omega arith),
    )
