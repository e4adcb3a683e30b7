-- ===== src/Tls/Fields.antt =====
-- What holds of the fields of a parsed hello.
use x402_health_oracle.Prelude.{
  ℕ, zero, suc, ◌+◌, ◌≡◌, refl, true, false, ◌||◌, some, List, [], ◌∷◌, ◌++◌, length, ltb, leb,
  arith, All, All-append, any, ◌==◌, Option-cases, Bool-cases, if◌then◌else◌, inl, inr, ◌⊎◌, Text,
  get_elem?,
}
use mathlib.Core.Path.{subst}
use x402_health_oracle.Encoding.Hex.{Bytes, IsByte}
use x402_health_oracle.Tls.{ClientHelloInfo}
use x402_health_oracle.Tls.Parse.{
  lesser, read_u16, read_ciphers, best_version, read_alpn, read_sig_algs, read_versions, read_body,
  read_extension, read_extensions, read_tail, read_offer, read_hello, parse_client_hello,
}
use x402_health_oracle.Tls.Numbers.{
  IsU16, read_u16-lt, read_ciphers-All, read_sig_algs-All, best_version-le,
}

-- The numbers are of 16 bits, and the name flag is set if server_name is among the extensions.
abbrev pub IsHello : ClientHelloInfo → Type 0
IsHello info =
    IsU16 info.tls_version
    × All IsU16 info.ciphers
    × All IsU16 info.extensions
    × All IsU16 info.sig_algs
    × (info.sni ≡ any (λ e. e == 0) info.extensions)

any-append :
    (xs : List ℕ) (y : ℕ) → any (λ e. e == 0) (xs ++ y ∷ []) ≡ (any (λ e. e == 0) xs || (y == 0))
any-append [] y = ground arith
any-append (x ∷ xs) y = ground (arith, any-append xs y)

module _ (buf : Bytes) (bytes : All IsByte buf) where
  read_versions-version :
      (body end : ℕ) (info next : ClientHelloInfo)
      → IsU16 info.tls_version
      → read_versions buf body end info ≡ some next
      → (v : ℕ) × IsU16 v × (record info { tls_version = v } ≡ next)
  unfolding read_versions
  read_versions-version body end info next h e = elim (Bool-cases (ltb body end)) [
    | inr empty ↦ (info.tls_version, h, ground arith)
    | inl filled ↦ elim (Option-cases (get_elem? buf body)) [
      | inl nothing ↦ absurd (ground arith)
      | inr (n, there) ↦ elim (Option-cases (best_version (length buf) buf body end n 0 0)) [
        | inl nothing ↦ absurd (ground arith)
        | inr (best, found) ↦ (
          if best == 0 then info.tls_version else best,
          ground (arith, best_version-le buf bytes (length buf) body end n 0 0 best),
          ground arith,
        )
      ]
    ]
  ]

  -- What a body makes of the hello.
  abbrev Outcome : ℕ → ℕ → ℕ → ClientHelloInfo → ClientHelloInfo → Type 0
  Outcome type body end info next =
      ((type ≡ 0) × (record info { sni = true } ≡ next))
      ⊎ ((type == 0 ≡ false)
          × ((read_versions buf body end info ≡ some next)
              ⊎ (((names : List Text) × (record info { alpn = info.alpn ++ names } ≡ next))
                  ⊎ (((more : List ℕ) × (read_sig_algs (length buf) buf end (body + 2) ≡ some more)
                        × (record info { sig_algs = info.sig_algs ++ more } ≡ next))
                      ⊎ (info ≡ next)))))

  read_body-Outcome :
      (type body end : ℕ) (info next : ClientHelloInfo)
      → read_body buf type body end info ≡ some next
      → Outcome type body end info next
  unfolding read_body
  read_body-Outcome type body end info next e = elim (Bool-cases (type == 0)) [
    | inl name ↦ inl (ground arith, ground arith)
    | inr other ↦ inr (
      other,
      elim (Bool-cases (type == 0x002b)) [
        | inl versions ↦ inl (ground arith)
        | inr no_versions ↦ inr (elim (Bool-cases (type == 0x0010)) [
          | inl protocols ↦ elim (Option-cases (read_alpn (length buf) buf end (body + 2))) [
            | inl nothing ↦ absurd (ground arith)
            | inr (names, found) ↦ inl (names, ground arith)
          ]
          | inr no_protocols ↦ inr (elim (Bool-cases (type == 0x000d)) [
            | inl algorithms ↦ elim (Option-cases (read_sig_algs (length buf) buf end (body + 2))) [
              | inl nothing ↦ absurd (ground arith)
              | inr (more, found) ↦ inl (more, found, ground arith)
            ]
            | inr none_of_them ↦ inr (ground arith)
          ])
        ])
      ],
    )
  ]

  read_body-IsHello :
      (type body end : ℕ) (info next : ClientHelloInfo)
      → IsU16 type
      → IsHello info
      → read_body buf type body end (record info { extensions = info.extensions ++ type ∷ [] })
        ≡ some next
      → IsHello next
  read_body-IsHello type body end info next u (version, ciphers, extensions, algs, name) e =
      let info' : ClientHelloInfo = record info { extensions = info.extensions ++ type ∷ [] } in
      let pushed = All-append IsU16 info.extensions (type ∷ []) extensions (u, tt) in
      let named = any-append info.extensions type in
      elim (read_body-Outcome type body end info' next e) [
        | inl (zero_type, same) ↦ subst IsHello same (version, ciphers, pushed, algs, ground arith)
        | inr (other, inl found) ↦
            let (v, v_u16, same) = read_versions-version body end info' next version found in
            subst IsHello same (v_u16, ciphers, pushed, algs, ground arith)
        | inr (other, inr (inl (names, same))) ↦
            subst IsHello same (version, ciphers, pushed, algs, ground arith)
        | inr (other, inr (inr (inl (more, found, same)))) ↦ subst IsHello same (
          version,
          ciphers,
          pushed,
          All-append IsU16 info.sig_algs more algs
              (read_sig_algs-All buf bytes (length buf) end (body + 2) more found),
          ground arith,
        )
        | inr (other, inr (inr (inr same))) ↦
            subst IsHello same (version, ciphers, pushed, algs, ground arith)
      ]

  read_extension-IsHello :
      (end p : ℕ) (info next : ClientHelloInfo) (end' : ℕ)
      → IsHello info
      → read_extension buf end p info ≡ some (next, end')
      → IsHello next
  unfolding read_extension
  read_extension-IsHello end p info next end' h e = elim (Option-cases (read_u16 buf p)) [
    | inl nothing ↦ absurd (ground arith)
    | inr (type, there) ↦ elim (Option-cases (read_u16 buf (p + 2))) [
      | inl nothing ↦ absurd (ground arith)
      | inr (len, sized) ↦
          let body_end = lesser (p + 4 + len) end in
          let pushed : ClientHelloInfo = record info {
            extensions = info.extensions ++ type ∷ [];
          } in
          elim (Option-cases (read_body buf type (p + 4) body_end pushed)) [
            | inl nothing ↦ absurd (ground arith)
            | inr (info', found) ↦ subst IsHello {x = info'} {y = next} (ground arith) (
                read_body-IsHello type (p + 4) body_end info info'
                  (read_u16-lt buf bytes p type there) h found)
          ]
    ]
  ]

  read_extensions-IsHello :
      (f end p : ℕ) (info next : ClientHelloInfo)
      → IsHello info
      → read_extensions f buf end p info ≡ some next
      → IsHello next
  unfolding read_extensions
  read_extensions-IsHello zero end p info next h e =
      subst IsHello {x = info} {y = next} (ground arith) h
  read_extensions-IsHello (suc f) end p info next h e = elim (Bool-cases (leb (p + 4) end)) [
    | inr past ↦ subst IsHello {x = info} {y = next} (ground arith) h
    | inl inside ↦ elim (Option-cases (read_extension buf end p info)) [
      | inl nothing ↦ absurd (ground arith)
      | inr ((info', end'), found) ↦
          read_extensions-IsHello f end end' info' next
            (read_extension-IsHello end p info info' end' h found) (ground arith)
    ]
  ]

  read_tail-IsHello :
      (p : ℕ) (info next : ClientHelloInfo)
      → IsHello info
      → read_tail buf p info ≡ some next
      → IsHello next
  unfolding read_tail
  read_tail-IsHello p info next h e = elim (Bool-cases (ltb (length buf) (p + 2))) [
    | inl no_room ↦ subst IsHello {x = info} {y = next} (ground arith) h
    | inr room ↦ elim (Option-cases (read_u16 buf p)) [
      | inl nothing ↦ absurd (ground arith)
      | inr (total, sized) ↦
          read_extensions-IsHello (length buf) (lesser (p + 2 + total) (length buf)) (p + 2) info
            next h (ground arith)
    ]
  ]

  read_offer-IsHello :
      (version p : ℕ) (info : ClientHelloInfo)
      → IsU16 version
      → read_offer buf version p ≡ some info
      → IsHello info
  unfolding read_offer
  read_offer-IsHello version p info h e = elim (Option-cases (read_u16 buf p)) [
    | inl nothing ↦ absurd (ground arith)
    | inr (n, sized) ↦ elim (Option-cases (read_ciphers (length buf) buf n 0 (p + 2))) [
      | inl nothing ↦ absurd (ground arith)
      | inr ((ciphers, q), found) ↦ elim (Option-cases (get_elem? buf q)) [
        | inl nothing ↦ absurd (ground arith)
        | inr (comp_len, there) ↦
            read_tail-IsHello (q + 1 + comp_len)
              (record {
                tls_version = version;
                sni = false;
                ciphers = ciphers;
                extensions = [];
                alpn = [];
                sig_algs = [];
              })
              info
              (h, read_ciphers-All buf bytes (length buf) n 0 (p + 2) q ciphers found, tt, tt, refl)
              (ground arith)
      ]
    ]
  ]

  read_hello-IsHello :
      (start : ℕ) (info : ClientHelloInfo) → read_hello buf start ≡ some info → IsHello info
  unfolding read_hello
  read_hello-IsHello start info e = elim (Option-cases (get_elem? buf start)) [
    | inl nothing ↦ absurd (ground arith)
    | inr (type, a) ↦ elim (Option-cases (read_u16 buf (start + 4))) [
      | inl nothing ↦ absurd (ground arith)
      | inr (version, b) ↦ elim (Option-cases (get_elem? buf (start + 38))) [
        | inl nothing ↦ absurd (ground arith)
        | inr (sid_len, c) ↦
            read_offer-IsHello version (start + 39 + sid_len) info
              (read_u16-lt buf bytes (start + 4) version b) (ground arith)
      ]
    ]
  ]

-- Of a hello that is parsed from bytes, the version, the ciphers, the extensions and the signature
-- algorithms are numbers of 16 bits, and the name flag is set exactly if server_name is among the
-- extensions.
pub parse_client_hello-IsHello :
    (buf : Bytes) (info : ClientHelloInfo)
    → All IsByte buf
    → parse_client_hello buf ≡ some info
    → IsHello info
unfolding parse_client_hello
parse_client_hello-IsHello buf info bytes e = elim (Option-cases (get_elem? buf 0)) [
  | inl nothing ↦ absurd (ground arith)
  | inr (first, there) ↦ elim (Bool-cases (first == 0x16)) [
    | inl layer ↦ read_hello-IsHello buf bytes 5 info (ground arith)
    | inr no_layer ↦ read_hello-IsHello buf bytes 0 info (ground arith)
  ]
]
