-- ===== src/Drift/PageHinkley.antt =====
-- `PageHinkley` of gateway/src/services/driftModel.ts.
use x402_health_oracle.Prelude.{ℕ, ◌+◌, Bool, false, Option, none, some, if◌then◌else◌}
use x402_health_oracle.Double.{Double, ◌⊕◌, ◌⊖◌, ◌⊘◌, ◌⊏◌, num, min, max}

pub record PageHinkley {ℓ} (W : Type ℓ) : Type ℓ where
  pub delta : W
  pub lambda : W
  pub mean : W
  pub cnt : ℕ
  pub m_up : W
  pub min_up : W
  pub m_dn : W
  pub max_dn : W
  pub drifting : Bool

pub record PageHinkleyOptions {ℓ} (W : Type ℓ) : Type ℓ where
  pub delta : Option W
  pub lambda : Option W

abbrev pub or_default {ℓ} : {A : Type ℓ} → Option A → A → A
or_default none a = a
or_default (some b) _ = b

module _ {ℓ} {W : Type ℓ} ⦃d : Double W⦄ where
  unfoldable pub new_page_hinkley : PageHinkleyOptions W → PageHinkley W
  new_page_hinkley opts = record {
    delta = or_default opts.delta (d.ratio 5 1000);
    lambda = or_default opts.lambda (num 50);
    mean = num 0;
    cnt = 0;
    m_up = num 0;
    min_up = num 0;
    m_dn = num 0;
    max_dn = num 0;
    drifting = false;
  }

  -- The accumulators with one more finite sample.
  unfoldable pub accumulate : PageHinkley W → W → PageHinkley W
  accumulate s x =
      let cnt = s.cnt + 1 in
      let mean = s.mean ⊕ (x ⊖ s.mean) ⊘ num cnt in
      let m_up = s.m_up ⊕ (x ⊖ mean ⊖ s.delta) in
      let m_dn = s.m_dn ⊕ (x ⊖ mean ⊕ s.delta) in
      record s {
        mean = mean;
        cnt = cnt;
        m_up = m_up;
        min_up = min s.min_up m_up;
        m_dn = m_dn;
        max_dn = max s.max_dn m_dn;
      }

  unfoldable pub magnitude : PageHinkley W → W
  magnitude s = max (s.m_up ⊖ s.min_up) (s.max_dn ⊖ s.m_dn)

  -- The new detector beside the magnitude; whether it drifts is its field.
  unfoldable pub observe : PageHinkley W → W → PageHinkley W × W
  unfolding accumulate magnitude
  observe s x =
      if d.is_finite x
      then (let t = accumulate s x in
          let m = magnitude t in (record t { drifting = t.lambda ⊏ m }, m))
      else (s, num 0)

  unfoldable pub reset : PageHinkley W → PageHinkley W
  reset s = record s {
    m_up = num 0;
    min_up = num 0;
    m_dn = num 0;
    max_dn = num 0;
    drifting = false;
  }
