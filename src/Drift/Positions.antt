-- ===== src/Drift/Positions.antt =====
-- The positions of the five markers.
use x402_health_oracle.Prelude.{
  ℕ, ◌+◌, ◌≤◌, ◌<◌, ◌≡◌, refl, List, [], ◌∷◌, ◌++◌, ◌==◌, length, length-append, keep, arith,
  Bool-cases, inl, inr,
}
use x402_health_oracle.Double.{Double}
use x402_health_oracle.Drift.Quantile.{
  Marker, Markers, Estimator, filling, running, first_markers, locate, shift_all, adjust,
  adjust_all, count, take_in, observe,
}

abbrev pub positions {ℓ} : {W : Type ℓ} → Markers W → List ℕ
positions m = m.m0.position ∷ m.m1.position ∷ m.m2.position ∷ m.m3.position ∷ m.m4.position ∷ []

-- The outer markers stand at the first and the last sample, and the positions grow.
abbrev pub IsSpread {ℓ} : {W : Type ℓ} → ℕ → Markers W → Type 0
IsSpread cnt m =
    (m.m0.position ≡ 1)
    × (m.m0.position < m.m1.position)
    × (m.m1.position < m.m2.position)
    × (m.m2.position < m.m3.position)
    × (m.m3.position < m.m4.position)
    × (m.m4.position ≡ cnt)

abbrev pub IsValid {ℓ} : {W : Type ℓ} → Estimator W → Type 0
IsValid (filling init) = length init < 5
IsValid (running cnt m) = IsSpread cnt m

module _ {ℓ} {W : Type ℓ} ⦃d : Double W⦄ where
  adjust_between :
      (before m after : Marker W)
      → before.position < m.position
      → m.position < after.position
      → (before.position < (adjust before m after).position)
        × ((adjust before m after).position < after.position)
  unfolding adjust
  adjust_between before m after h k = (ground arith, ground arith)

  adjust_all-IsSpread : (cnt : ℕ) (m : Markers W) → IsSpread cnt m → IsSpread cnt (adjust_all m)
  unfolding adjust_all
  adjust_all-IsSpread cnt m (first, a, b, c, e, last) =
      let m1 = adjust m.m0 m.m1 m.m2 in
      let m2 = adjust m1 m.m2 m.m3 in
      let (a1, b1) = adjust_between m.m0 m.m1 m.m2 a b in
      let (b2, c2) = adjust_between m1 m.m2 m.m3 b1 c in
      let (c3, e3) = adjust_between m2 m.m3 m.m4 c2 e in (first, a1, b2, c3, e3, last)

  locate-IsSpread : (cnt : ℕ) (m : Markers W) (x : W) → IsSpread cnt m → IsSpread cnt (locate m x).0
  unfolding locate
  locate-IsSpread cnt m x spread = ground arith

  locate-le : (m : Markers W) (x : W) → (locate m x).1 ≤ 3
  unfolding locate
  locate-le m x = ground arith

  shift_all-IsSpread :
      (cnt k : ℕ) (m : Markers W) → k ≤ 3 → IsSpread cnt m → IsSpread (cnt + 1) (shift_all k m)
  unfolding shift_all
  shift_all-IsSpread cnt k m h (first, a, b, c, e, last) = ground arith

  take_in-IsValid : (p : W) (e : Estimator W) (x : W) → IsValid e → IsValid (take_in p e x)
  unfolding take_in first_markers
  take_in-IsValid p (filling init) x v = elim (Bool-cases (length (init ++ x ∷ []) == 5)) [
    | inl full ↦ rw (full, take_in) (ground arith)
    | inr room ↦ rw (room, take_in) (ground (arith, length-append init (x ∷ [])))
  ]
  take_in-IsValid p (running cnt m) x spread =
      let (located, k) = locate m x in
      adjust_all-IsSpread (cnt + 1) (shift_all k located)
        (shift_all-IsSpread cnt k located (locate-le m x) (locate-IsSpread cnt m x spread))

  pub count-take_in : (p : W) (e : Estimator W) (x : W) → count (take_in p e x) ≡ count e + 1
  unfolding take_in
  count-take_in p (filling init) x = ground (arith, length-append init (x ∷ []))
  count-take_in p (running cnt m) x = refl

  -- The samples of a stream in turn, on a new estimator.
  unfoldable pub observe_all : W → List W → Estimator W → Estimator W
  unfolding observe
  observe_all p [] e = e
  observe_all p (x ∷ xs) e = observe_all p xs (observe p e x)

  observe_all_lem :
      (p : W) (xs : List W) (e : Estimator W)
      → IsValid e
      → IsValid (observe_all p xs e)
        × (count (observe_all p xs e) ≡ count e + length (keep d.is_finite xs))
  unfolding observe_all observe
  observe_all_lem p [] e v = (v, omega arith)
  observe_all_lem p (x ∷ xs) e v = elim (Bool-cases (d.is_finite x)) [
    | inl finite ↦
        let (v', n) = observe_all_lem p xs (take_in p e x) (take_in-IsValid p e x v) in
        rw finite (v', ground (arith, count-take_in p e x))
    | inr not_finite ↦ let (v', n) = observe_all_lem p xs e v in rw not_finite (v', ground arith)
  ]

  -- Whatever the stream, an estimator counts the finite samples; from five on its outer markers
  -- stand at the first and the last sample, and the positions of the five grow strictly, so that
  -- no difference of two of them is zero.
  pub observe_all-IsValid :
      (p : W) (xs : List W)
      → IsValid (observe_all p xs (filling []))
        × (count (observe_all p xs (filling [])) ≡ length (keep d.is_finite xs))
  observe_all-IsValid p xs =
      let (v, n) = observe_all_lem p xs (filling []) (omega arith) in (v, ground arith)
