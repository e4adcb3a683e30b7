-- ===== src/Bans/Profiles.antt =====
-- The profiles of gateway/src/db/persist.ts. The costs and `trust_score` are doubles; a field that the
-- partial record leaves out is `none`. Each `Date.now()` is an argument, the last one counts.
use x402_health_oracle.Prelude.{
  ℕ, ◌≡◌, refl, Option, none, some, arith, Text, text_Eq, ◌===◌, if◌then◌else◌,
}
use x402_health_oracle.Prelude.Dict.{Dict, get, put, get-put, get-put_self}
use x402_health_oracle.Double.{Double, num}
use x402_health_oracle.Bans.{File, object}

pub record ProfileRecord {ℓ} (W : Type ℓ) : Type ℓ where
  pub m_cost : W
  pub t_cost : W
  pub successes : ℕ
  pub trust_score : W
  pub last_seen : ℕ

pub record PartialProfile {ℓ} (W : Type ℓ) : Type ℓ where
  pub m_cost : Option W
  pub t_cost : Option W
  pub successes : Option ℕ
  pub trust_score : Option W
  pub last_seen : Option ℕ

pub record ProfileStore {ℓ} (W : Type ℓ) : Type ℓ where
  pub profiles : Dict Text (ProfileRecord W)
  pub file : File (ProfileRecord W)

abbrev pub or_default {ℓ} : {A : Type ℓ} → Option A → A → A
or_default none a = a
or_default (some b) _ = b

module _ {ℓ} {W : Type ℓ} ⦃d : Double W⦄ where
  abbrev pub defaults : ℕ → ProfileRecord W
  defaults now = record {
    m_cost = num 16384;
    t_cost = num 3;
    successes = 0;
    trust_score = num 1;
    last_seen = now;
  }

  -- `{ ...old, ...data, last_seen: now }`
  abbrev pub spread : ProfileRecord W → PartialProfile W → ℕ → ProfileRecord W
  spread old given now = record {
    m_cost = or_default given.m_cost old.m_cost;
    t_cost = or_default given.t_cost old.t_cost;
    successes = or_default given.successes old.successes;
    trust_score = or_default given.trust_score old.trust_score;
    last_seen = now;
  }

  unfoldable pub persist_profile : ProfileStore W → Text → PartialProfile W → ℕ → ℕ → ProfileStore W
  persist_profile s ip given now later =
      let old = or_default (get ip s.profiles) (defaults now) in
      let profiles = put ip (spread old given later) s.profiles in
      record { profiles = profiles; file = object profiles }

  unfoldable pub load_profile : ProfileStore W → Text → Option (ProfileRecord W)
  load_profile s ip = get ip s.profiles

  -- Two updates of an address are one update by both, where the later one counts; every other
  -- address keeps its profile, and the file holds what the memory holds.
  pub load_profile-persist_profile :
      (s : ProfileStore W) (ip j : Text) (given given' : PartialProfile W) (t t' u u' : ℕ)
      → let s' = persist_profile (persist_profile s ip given t t') ip given' u u' in
        (load_profile s' j ≡ (
          if ip === j
          then some
              (spread (spread (or_default (load_profile s ip) (defaults t)) given t') given' u')
          else load_profile s j))
        × (s'.file ≡ object s'.profiles)
  unfolding persist_profile load_profile
  load_profile-persist_profile s ip j given given' t t' u u' =
      let first = spread (or_default (get ip s.profiles) (defaults t)) given t' in
      (
        ground (
          arith,
          get-put_self ip first s.profiles,
          get-put ip j first s.profiles,
          get-put ip j (spread first given' u') (put ip first s.profiles),
        ),
        refl,
      )
