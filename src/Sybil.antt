-- ===== src/Sybil.antt =====
-- gateway/src/services/sybilCluster.ts. A cohort's name is its number. The day of the salt and the
-- time are arguments; of a fingerprint only the intervals are looked at. An operation takes the
-- hash of its address, which is `hash_ip` on the day of the call.
pub mod Flags
pub mod Few
use x402_health_oracle.Prelude.{
  ℕ, ◌+◌, Bool, true, false, ◌||◌, not, Option, none, some, List, [], ◌∷◌, ◌++◌, ltb, leb,
  if◌then◌else◌, length, keep, take, Text, codes, text_Eq, nat_Eq, ◌===◌, ◌==◌,
}
use x402_health_oracle.Prelude.Dict.{Dict, get, put, remove, is_some}
use x402_health_oracle.Crypto.{Crypto}
use x402_health_oracle.Encoding.Hex.{to_hex}
use x402_health_oracle.Double.{Double, ◌⊏◌, num}
use x402_health_oracle.Welford.{
  WelfordProfile, new_profile, update, is_stable, to_distribution, kl_divergence,
}

pub record IpRecord {ℓ} (W : Type ℓ) : Type ℓ where
  pub profile : WelfordProfile W
  pub intervals : List W
  pub cohort_id : Option ℕ
  pub flagged : Bool
  pub last_seen : ℕ

pub record SybilCluster {ℓ} (W : Type ℓ) : Type ℓ where
  -- hash of the address → record
  pub records : Dict Text (IpRecord W)
  -- cohort → hashes
  pub cohorts : Dict ℕ (List Text)
  pub cohort_counter : ℕ

pub record ClusterStats : Type 0 where
  pub total : ℕ
  pub cohorts : ℕ
  pub flagged : ℕ

abbrev pub max_records : ℕ
max_records = 10000

abbrev pub ttl_ms : ℕ
ttl_ms = 86400000

module _ (c : Crypto) where
  unfoldable pub daily_salt : Text → Text
  daily_salt day = take 16 (to_hex (c.sha256 (codes "sdna-sybil-" ++ day)))

  unfoldable pub hash_ip : Text → Text → Text
  hash_ip day ip = take 16 (to_hex (c.sha256 (ip ++ daily_salt day)))

abbrev pub is_member : Text → List Text → Bool
is_member a [] = false
is_member a (b ∷ bs) = b === a || is_member a bs

abbrev pub add_member : Text → List Text → List Text
add_member a members = if is_member a members then members else members ++ a ∷ []

abbrev pub drop_member : Text → List Text → List Text
drop_member a members = keep (λ b. not (b === a)) members

-- `cohorts.get(id)?.delete(hash)`
abbrev pub leave : Option ℕ → Text → Dict ℕ (List Text) → Dict ℕ (List Text)
leave none hash cohorts = cohorts
leave (some id) hash cohorts = elim (get id cohorts) [
  | none ↦ cohorts
  | some members ↦ put id (drop_member hash members) cohorts
]

-- `record.cohortId && record.cohortId !== cohortId`
abbrev pub is_elsewhere : Option ℕ → ℕ → Bool
is_elsewhere none id = false
is_elsewhere (some old) id = not (old == id)

abbrev pub size_of : Option (List Text) → ℕ
size_of none = 1
size_of (some members) = length members

abbrev pub raise_flag {ℓ} : {W : Type ℓ} → IpRecord W → IpRecord W
raise_flag r = record r { flagged = true }

module _ {ℓ} {W : Type ℓ} ⦃d : Double W⦄ where
  abbrev pub cohort_kl_threshold : W
  cohort_kl_threshold = d.ratio 15 100

  unfoldable pub update_all : WelfordProfile W → List W → WelfordProfile W
  unfolding update
  update_all p [] = p
  update_all p (v ∷ vs) = update_all (update p v) vs

  unfoldable pub evict_old : ℕ → List (Text × IpRecord W) → SybilCluster W → SybilCluster W
  evict_old now [] s = s
  evict_old now ((hash, r) ∷ rest) s =
      let next =
        if ltb (r.last_seen + ttl_ms) now
        then record s {
          cohorts = leave r.cohort_id hash s.cohorts;
          records = remove hash s.records;
        }
        else s in
      evict_old now rest next

  abbrev pub or_default : Option W → W → W
  or_default none x = x
  or_default (some y) _ = y

  unfoldable pub kl_distance : WelfordProfile W → WelfordProfile W → W
  unfolding kl_divergence to_distribution
  kl_distance a b =
      if not (is_stable 5 a) || not (is_stable 5 b)
      then num 1
      else or_default (kl_divergence (to_distribution a 20) (to_distribution b 20)) (num 1)

  -- The profile of the first member with a stable one.
  unfoldable pub representative : Dict Text (IpRecord W) → List Text → Option (WelfordProfile W)
  representative records [] = none
  representative records (hash ∷ members) =
      let rest = representative records members in
      elim (get hash records) [
        | none ↦ rest
        | some r ↦ if is_stable 5 r.profile then some r.profile else rest
      ]

  unfoldable pub find_cohort :
      Dict Text (IpRecord W) → WelfordProfile W → Dict ℕ (List Text) → Option ℕ
  unfolding representative kl_distance
  find_cohort records p [] = none
  find_cohort records p ((id, members) ∷ cohorts) =
      let rest = find_cohort records p cohorts in
      elim (representative records members) [
        | none ↦ rest
        | some q ↦ if kl_distance p q ⊏ cohort_kl_threshold then some id else rest
      ]

  abbrev pub members_of : SybilCluster W → ℕ → List Text
  members_of s id = elim (get id s.cohorts) [ none ↦ [] | some members ↦ members ]

  unfoldable pub join : SybilCluster W → Text → IpRecord W → ℕ → SybilCluster W
  join s hash r id =
      let left =
        if is_elsewhere r.cohort_id id then leave r.cohort_id hash s.cohorts else s.cohorts in
      record s {
        records = put hash (record r { cohort_id = some id }) s.records;
        cohorts = put id (add_member hash (members_of s id)) left;
      }

  -- The record stands at its hash.
  unfoldable pub assign_cohort : SybilCluster W → Text → IpRecord W → SybilCluster W
  unfolding find_cohort join
  assign_cohort s hash r =
      if not (is_stable 5 r.profile) then s else elim (find_cohort s.records r.profile s.cohorts) [
        | some id ↦ join s hash r id
        | none ↦
            let id = s.cohort_counter + 1 in
            record {
              records = put hash (record r { cohort_id = some id }) s.records;
              cohorts = put id (hash ∷ []) s.cohorts;
              cohort_counter = id;
            }
      ]

  unfoldable pub next_record : Option (IpRecord W) → List W → ℕ → IpRecord W
  unfolding update_all
  next_record none intervals now = record {
    profile = update_all new_profile intervals;
    intervals = intervals;
    cohort_id = none;
    flagged = false;
    last_seen = now;
  }
  next_record (some r) intervals now = record r {
    profile = update_all r.profile intervals;
    intervals = intervals;
    last_seen = now;
  }

  unfoldable pub ingest : SybilCluster W → Text → List W → ℕ → SybilCluster W
  unfolding evict_old next_record assign_cohort
  ingest s hash intervals now =
      let kept = if leb max_records (length s.records) then evict_old now s.records s else s in
      let r = next_record (get hash kept.records) intervals now in
      assign_cohort (record kept { records = put hash r kept.records }) hash r

  -- The members that have a record are flagged and counted.
  unfoldable pub flag_members : List Text → Dict Text (IpRecord W) → ℕ → Dict Text (IpRecord W) × ℕ
  flag_members [] records count = (records, count)
  flag_members (hash ∷ members) records count = elim (get hash records) [
    | none ↦ flag_members members records count
    | some r ↦ flag_members members (put hash (raise_flag r) records) (count + 1)
  ]

  unfoldable pub flag : SybilCluster W → Text → SybilCluster W × ℕ
  unfolding flag_members
  flag s hash = elim (get hash s.records) [
    | none ↦ (s, 0)
    | some r ↦
        let records = put hash (raise_flag r) s.records in
        elim r.cohort_id [
          | none ↦ (record s { records = records }, 1)
          | some id ↦ elim (get id s.cohorts) [
            | none ↦ (record s { records = records }, 1)
            | some members ↦
                let (flagged, count) = flag_members members records 0 in
                (record s { records = flagged }, count)
          ]
        ]
  ]

  abbrev pub flag_of : Option (IpRecord W) → Bool
  flag_of none = false
  flag_of (some r) = r.flagged

  unfoldable pub is_flagged : SybilCluster W → Text → Bool
  is_flagged s hash = flag_of (get hash s.records)

  unfoldable pub get_cohort_size : SybilCluster W → Text → ℕ
  get_cohort_size s hash = elim (get hash s.records) [
    | none ↦ 1
    | some r ↦ elim r.cohort_id [ none ↦ 1 | some id ↦ size_of (get id s.cohorts) ]
  ]

  unfoldable pub clear : SybilCluster W → SybilCluster W
  clear s = record { records = []; cohorts = []; cohort_counter = 0 }

  unfoldable pub count_flagged : Dict Text (IpRecord W) → ℕ
  count_flagged [] = 0
  count_flagged ((_, r) ∷ rest) = (if r.flagged then 1 else 0) + count_flagged rest

  unfoldable pub get_stats : SybilCluster W → ClusterStats
  unfolding count_flagged
  get_stats s = record {
    total = length s.records;
    cohorts = length s.cohorts;
    flagged = count_flagged s.records;
  }
