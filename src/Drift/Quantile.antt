-- ===== src/Drift/Quantile.antt =====
-- `P2Quantile` of gateway/src/services/driftModel.ts: an estimator that fills its first five
-- samples, or one that runs on five markers. Positions are whole numbers, heights are doubles.
use x402_health_oracle.Prelude.{
  ℕ, ◌+◌, ◌-◌, Bool, false, ◌&&◌, Option, none, some, List, [], ◌∷◌, ◌++◌, ◌==◌, ltb, if◌then◌else◌,
  length, get_or,
}
use x402_health_oracle.Double.{Double, ◌⊕◌, ◌⊖◌, ◌⊗◌, ◌⊘◌, ◌⊑◌, ◌⊏◌, num, neg}
use x402_health_oracle.Stats.{sort}

pub record Marker {ℓ} (W : Type ℓ) : Type ℓ where
  pub height : W
  pub position : ℕ
  pub desired : W
  pub increment : W

pub record Markers {ℓ} (W : Type ℓ) : Type ℓ where
  pub m0 : Marker W
  pub m1 : Marker W
  pub m2 : Marker W
  pub m3 : Marker W
  pub m4 : Marker W

pub data Estimator {ℓ} (W : Type ℓ) : Type ℓ where
  filling : (init : List W) → Estimator W
  running : (cnt : ℕ) → Markers W → Estimator W

-- `Math.min(s.length - 1, Math.max(0, i))` for the floor of a double.
abbrev pub clamp_index : Option ℕ → ℕ → ℕ
clamp_index none last = 0
clamp_index (some i) last = if ltb last i then last else i

module _ {ℓ} {W : Type ℓ} ⦃d : Double W⦄ where
  abbrev pub marker : W → ℕ → W → W → Marker W
  marker height position desired increment = record {
    height = height;
    position = position;
    desired = desired;
    increment = increment;
  }

  -- The markers on the first five samples, sorted.
  unfoldable pub first_markers : W → List W → Markers W
  first_markers p init =
      let q = sort init in
      record {
        m0 = marker (get_or q 0 d.nan) 1 (num 1) (num 0);
        m1 = marker (get_or q 1 d.nan) 2 (num 1 ⊕ num 2 ⊗ p) (p ⊘ num 2);
        m2 = marker (get_or q 2 d.nan) 3 (num 1 ⊕ num 4 ⊗ p) p;
        m3 = marker (get_or q 3 d.nan) 4 (num 3 ⊕ num 2 ⊗ p) ((num 1 ⊕ p) ⊘ num 2);
        m4 = marker (get_or q 4 d.nan) 5 (num 5) (num 1);
      }

  abbrev pub is_between : W → W → W → Bool
  is_between low x high = (low ⊑ x) && (x ⊏ high)

  -- The cell of x, and the outer markers moved to it if it lies outside.
  unfoldable pub locate : Markers W → W → Markers W × ℕ
  locate m x =
      if x ⊏ m.m0.height
      then (record m { m0 = record m.m0 { height = x } }, 0)
      else if m.m4.height ⊑ x
      then (record m { m4 = record m.m4 { height = x } }, 3)
      else if is_between m.m0.height x m.m1.height
      then (m, 0)
      else if is_between m.m1.height x m.m2.height
      then (m, 1)
      else if is_between m.m2.height x m.m3.height
      then (m, 2)
      else if is_between m.m3.height x m.m4.height
      then (m, 3)
      else (m, 0)

  -- `n[i] += 1` right of the cell, and `np[i] += dn[i]`.
  abbrev pub shift : Bool → Marker W → Marker W
  shift is_right m = record m {
    position = if is_right then m.position + 1 else m.position;
    desired = m.desired ⊕ m.increment;
  }

  unfoldable pub shift_all : ℕ → Markers W → Markers W
  shift_all k m = record {
    m0 = shift false m.m0;
    m1 = shift (ltb k 1) m.m1;
    m2 = shift (ltb k 2) m.m2;
    m3 = shift (ltb k 3) m.m3;
    m4 = shift (ltb k 4) m.m4;
  }

  -- The difference of two positions.
  abbrev pub gap : Marker W → Marker W → W
  gap a b = num b.position ⊖ num a.position

  unfoldable pub parabolic : Marker W → Marker W → Marker W → W → W
  parabolic before m after s =
      m.height
      ⊕ (s ⊘ gap before after)
        ⊗ ((gap before m ⊕ s) ⊗ (after.height ⊖ m.height) ⊘ gap m after
            ⊕ (gap m after ⊖ s) ⊗ (m.height ⊖ before.height) ⊘ gap before m)

  -- Towards the neighbour on the side of s.
  unfoldable pub linear : Marker W → Marker W → W → W
  linear m neighbour s = m.height ⊕ s ⊗ (neighbour.height ⊖ m.height) ⊘ gap m neighbour

  unfoldable pub new_height : Marker W → Marker W → Marker W → Marker W → W → W
  unfolding parabolic linear
  new_height before m after neighbour s =
      let qp = parabolic before m after s in
      if (before.height ⊏ qp) && (qp ⊏ after.height) then qp else linear m neighbour s

  -- An inner marker between its neighbours. `Math.sign` of what passed the test is 1 or -1.
  unfoldable pub adjust : Marker W → Marker W → Marker W → Marker W
  unfolding new_height
  adjust before m after =
      let d0 = m.desired ⊖ num m.position in
      if (num 1 ⊑ d0) && ltb (m.position + 1) after.position
      then record m { height = new_height before m after after (num 1); position = m.position + 1 }
      else if (d0 ⊑ neg (num 1)) && ltb (before.position + 1) m.position
      then record m {
        height = new_height before m after before (neg (num 1));
        position = m.position - 1;
      }
      else m

  unfoldable pub adjust_all : Markers W → Markers W
  unfolding adjust
  adjust_all m =
      let m1 = adjust m.m0 m.m1 m.m2 in
      let m2 = adjust m1 m.m2 m.m3 in
      let m3 = adjust m2 m.m3 m.m4 in record m { m1 = m1; m2 = m2; m3 = m3 }

  abbrev pub count : Estimator W → ℕ
  count (filling init) = length init
  count (running cnt _) = cnt

  -- A finite sample.
  unfoldable pub take_in : W → Estimator W → W → Estimator W
  unfolding first_markers locate shift_all adjust_all
  take_in p (filling init) x =
      let all = init ++ x ∷ [] in
      if length all == 5 then running 5 (first_markers p all) else filling all
  take_in p (running cnt m) x =
      let (located, k) = locate m x in running (cnt + 1) (adjust_all (shift_all k located))

  unfoldable pub observe : W → Estimator W → W → Estimator W
  unfolding take_in
  observe p e x = if d.is_finite x then take_in p e x else e

  unfoldable pub value : W → Estimator W → W
  value p (filling []) = d.nan
  value p (filling (x ∷ init)) =
      let s = sort (x ∷ init) in
      get_or s (clamp_index (d.index (d.floor (p ⊗ num (length s)))) (length s - 1)) d.nan
  value p (running cnt m) = m.m2.height
