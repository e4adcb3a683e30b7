-- ===== src/Sybil/Flags.antt =====
-- Which records a flag reaches.
use x402_health_oracle.Prelude.{
  ℕ, ◌+◌, ◌≡◌, refl, Bool, false, ◌||◌, Option, none, some, List, [], ◌∷◌, if◌then◌else◌, Text,
  text_Eq, nat_Eq, ◌===◌, arith, Option-cases, inl, inr,
}
use x402_health_oracle.Prelude.Dict.{Dict, get, put, get-put}
use x402_health_oracle.Double.{Double}
use x402_health_oracle.Sybil.{IpRecord, SybilCluster, is_member, raise_flag, flag_members, flag}

abbrev pub raised {ℓ} : {W : Type ℓ} → Option (IpRecord W) → Option (IpRecord W)
raised none = none
raised (some r) = some (raise_flag r)

abbrev pub members_or_none {ℓ} : {W : Type ℓ} → SybilCluster W → Option ℕ → List Text
members_or_none s none = []
members_or_none s (some id) = elim (get id s.cohorts) [ none ↦ [] | some members ↦ members ]

-- The record of `hash` is there, and h is that hash or a member of its cohort.
abbrev pub is_reached {ℓ} : {W : Type ℓ} → SybilCluster W → Text → Text → Bool
is_reached s hash h = elim (get hash s.records) [
  | none ↦ false
  | some r ↦ hash === h || is_member h (members_or_none s r.cohort_id)
]

module _ {ℓ} {W : Type ℓ} ⦃d : Double W⦄ where
  get-flag_members :
      (members : List Text) (records : Dict Text (IpRecord W)) (n : ℕ) (h : Text)
      → get h (flag_members members records n).0
        ≡ (if is_member h members then raised (get h records) else get h records)
  unfolding flag_members
  get-flag_members [] records n h = refl
  get-flag_members (m ∷ members) records n h = elim (Option-cases (get m records)) [
    | inl nothing ↦ ground (arith, get-flag_members members records n h, text_Eq.eq_correct m h)
    | inr (r, there) ↦ ground (
      arith,
      get-flag_members members (put m (raise_flag r) records) (n + 1) h,
      get-put m h (raise_flag r) records,
      text_Eq.eq_correct m h,
    )
  ]

  -- A flag on an address that is known sets the flag of its record and of the records of all
  -- members of its cohort, and changes nothing else in any record; on one that is not known it
  -- changes no record.
  pub flag_reaches :
      (s : SybilCluster W) (hash h : Text)
      → get h (flag s hash).0.records
        ≡ (if is_reached s hash h then raised (get h s.records) else get h s.records)
  unfolding flag
  flag_reaches s hash h = elim (Option-cases (get hash s.records)) [
    | inl unknown ↦ ground arith
    | inr (r, known) ↦
        let records = put hash (raise_flag r) s.records in
        let stored = get-put hash h (raise_flag r) s.records in
        let same = text_Eq.eq_correct hash h in
        elim (Option-cases r.cohort_id) [
          | inl alone ↦ ground arith
          | inr (id, placed) ↦ elim (Option-cases (get id s.cohorts)) [
            | inl no_cohort ↦ ground arith
            | inr (members, found) ↦ ground (arith, get-flag_members members records 0 h)
          ]
        ]
  ]
