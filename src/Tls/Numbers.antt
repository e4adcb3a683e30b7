-- ===== src/Tls/Numbers.antt =====
-- The numbers that the parser reads, from a buffer of bytes.
use x402_health_oracle.Prelude.{
  ℕ, zero, suc, ◌+◌, ◌≤◌, ◌<◌, ◌≡◌, some, List, [], ◌∷◌, arith, All, Option-cases, inl, inr,
  get_elem?,
}
use x402_health_oracle.Encoding.Hex.{Bytes, IsByte}
use x402_health_oracle.Tls.Parse.{better, read_u16, read_ciphers, best_version, read_sig_algs}

abbrev pub IsU16 : ℕ → Type 0
IsU16 v = v < 65536

get_elem?-All : (buf : Bytes) (i v : ℕ) → All IsByte buf → get_elem? buf i ≡ some v → v < 256
get_elem?-All [] i v h e = cc
get_elem?-All (b ∷ buf) zero v (h, hs) e = ground arith
get_elem?-All (b ∷ buf) (suc i) v (h, hs) e = get_elem?-All buf i v hs e

module _ (buf : Bytes) (bytes : All IsByte buf) where
  pub read_u16-lt : (p v : ℕ) → read_u16 buf p ≡ some v → v < 65536
  unfolding read_u16
  read_u16-lt p v e = elim (Option-cases (get_elem? buf p)) [
    | inl nothing ↦ ground arith
    | inr (high, first) ↦ elim (Option-cases (get_elem? buf (p + 1))) [
      | inl nothing ↦ ground arith
      | inr (low, second) ↦
          ground (
            arith,
            get_elem?-All buf p high bytes first,
            get_elem?-All buf (p + 1) low bytes second,
          )
    ]
  ]

  pub read_ciphers-All :
      (f cs_len i p end : ℕ) (xs : List ℕ)
      → read_ciphers f buf cs_len i p ≡ some (xs, end)
      → All IsU16 xs
  unfolding read_ciphers
  read_ciphers-All zero cs_len i p end xs e = ground arith
  read_ciphers-All (suc f) cs_len i p end xs e = elim (Option-cases (read_u16 buf p)) [
    | inl nothing ↦ ground arith
    | inr (c, there) ↦ elim (Option-cases (read_ciphers f buf cs_len (i + 2) (p + 2))) [
      | inl nothing ↦ ground arith
      | inr ((rest, end'), more) ↦
          ground
            (arith, read_u16-lt p c there, read_ciphers-All f cs_len (i + 2) (p + 2) end' rest more)
    ]
  ]

  pub read_sig_algs-All :
      (f end q : ℕ) (xs : List ℕ) → read_sig_algs f buf end q ≡ some xs → All IsU16 xs
  unfolding read_sig_algs
  read_sig_algs-All zero end q xs e = ground arith
  read_sig_algs-All (suc f) end q xs e = elim (Option-cases (read_u16 buf q)) [
    | inl nothing ↦ ground arith
    | inr (a, there) ↦ elim (Option-cases (read_sig_algs f buf end (q + 2))) [
      | inl nothing ↦ ground arith
      | inr (rest, more) ↦
          ground (arith, read_u16-lt q a there, read_sig_algs-All f end (q + 2) rest more)
    ]
  ]

  better-le : (best v : ℕ) → best ≤ 0x0304 → better best v ≤ 0x0304
  better-le best v h = ground arith

  pub best_version-le :
      (f body end list_len i best v : ℕ)
      → best ≤ 0x0304
      → best_version f buf body end list_len i best ≡ some v
      → v ≤ 0x0304
  unfolding best_version
  best_version-le zero body end list_len i best v h e = ground arith
  best_version-le (suc f) body end list_len i best v h e =
      elim (Option-cases (read_u16 buf (body + 1 + i))) [
        | inl nothing ↦ ground arith
        | inr (w, there) ↦ ground (
          arith,
          best_version-le f body end list_len (i + 2) (better best w) v (better-le best w h),
        )
      ]
