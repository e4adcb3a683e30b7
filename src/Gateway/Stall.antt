-- ===== src/Gateway/Stall.antt =====
-- The micro-stall middleware of gateway/server.ts: a request is held for some milliseconds, and the
-- ranks of the delays are compared with those of the pauses that the client makes after them. The
-- part before the wait is `micro_stall`, the callback at the end of the answer `note_delay`.
pub mod Pairs
use x402_health_oracle.Prelude.{
  ℕ, ◌+◌, ◌-◌, Bool, true, false, ◌&&◌, ◌||◌, Option, none, some, List, [], ◌∷◌, ◌++◌, leb, ltb,
  if◌then◌else◌, Text, codes, length, drop, map,
}
use x402_health_oracle.Double.{Double, ◌⊕◌, ◌⊗◌, ◌⊑◌, ◌⊏◌, num, is_nan}
use x402_health_oracle.Stats.{spearman_rank_correlation}
use x402_health_oracle.Gateway.Cache.{Cache}
use x402_health_oracle.Gateway.Guard.{Guard, is_banned, ban, count_dropped}

pub record StallRecord : Type 0 where
  pub server_delays : List ℕ
  pub client_gaps : List ℕ
  pub last_req : Option ℕ

module _ (c : Cache) (W : Type 0) where
  pub record StallState : Type 0 where
    pub stalls : c.Store StallRecord
    pub last_spearman_rho : W

-- The socket is destroyed, or the request waits for so many milliseconds.
pub data StallOutcome (W : Type 0) : Type 0 where
  destroyed : StallOutcome W
  go_on : W → StallOutcome W

abbrev pub pairs_needed : ℕ
pairs_needed = 7

abbrev pub or_new : Option StallRecord → StallRecord
or_new none = record { server_delays = []; client_gaps = []; last_req = none }
or_new (some rec) = rec

-- The pause since the last request, if a delay waits for one.
abbrev pub add_gap : StallRecord → ℕ → Option ℕ → StallRecord
add_gap rec now none = rec
add_gap rec now (some last) =
    if ltb last now
      && (ltb now (last + 30000) && ltb (length rec.client_gaps) (length rec.server_delays))
    then record rec { client_gaps = rec.client_gaps ++ (now - last) ∷ [] }
    else rec

unfoldable pub note_request : StallRecord → ℕ → StallRecord
note_request rec now = record (add_gap rec now rec.last_req) { last_req = some now }

-- `xs.slice(-7)`
abbrev pub last_seven : List ℕ → List ℕ
last_seven xs = drop (length xs - pairs_needed) xs

abbrev pub forget_pairs : StallRecord → StallRecord
forget_pairs rec = record rec { server_delays = []; client_gaps = [] }

abbrev pub push_delay : ℕ → StallRecord → StallRecord
push_delay delay rec = record rec { server_delays = rec.server_delays ++ delay ∷ [] }

module _ {W : Type 0} ⦃d : Double W⦄ where
  unfoldable pub rho_of : StallRecord → W
  rho_of rec =
      spearman_rank_correlation (map num (last_seven rec.server_delays))
        (map num (last_seven rec.client_gaps))

  abbrev pub is_static : W → W → Bool
  is_static rho threshold = is_nan rho || (rho ⊏ threshold)

  abbrev pub is_grey : W → Bool
  is_grey rho = rho ⊏ d.ratio 6 10

  unfoldable pub static_reason : W → Text
  static_reason rho = codes "Spearman ρ=" ++ (if is_nan rho then codes "NaN" else d.to_fixed 3 rho)

  -- How long the request is held: `random` is the draw of `Math.random()`.
  unfoldable pub stall_ms : Bool → Bool → W → W → W
  stall_ms armed grey_zone toxicity random =
      if armed && ((d.ratio 2 10 ⊑ toxicity) || grey_zone)
      then d.floor (num 5 ⊕ random ⊗ num 25)
      else num 0

  abbrev pub or_half : Option W → W
  or_half none = d.ratio 5 10
  or_half (some toxicity) = toxicity

  module _ {c : Cache} where
    -- From the correlation on.
    unfoldable pub judge_rho :
        Guard c
        → StallState c W
        → Text
        → StallRecord
        → W
        → W
        → Bool
        → Option W
        → W
        → ℕ
        → Guard c × StallState c W × StallOutcome W
    judge_rho g s ip rec rho threshold armed toxicity random now =
        if is_static rho threshold
        then (
          ban (count_dropped g) ip (static_reason rho) now,
          record {
            stalls = c.delete s.stalls ip;
            last_spearman_rho = if is_nan rho then s.last_spearman_rho else rho;
          },
          destroyed,
        )
        else (
          g,
          record { stalls = c.set s.stalls ip (forget_pairs rec) now; last_spearman_rho = rho },
          go_on (
              if is_grey rho
              then stall_ms armed true (d.ratio 85 100) random
              else stall_ms armed false (or_half toxicity) random),
        )

    -- `threshold` is liveRules.rho, `toxicity` what the sniper filter left in `res.locals.c_tox`.
    unfoldable pub micro_stall :
        Guard c
        → StallState c W
        → Text
        → W
        → Bool
        → Option W
        → W
        → ℕ
        → Guard c × StallState c W × StallOutcome W
    micro_stall g s ip threshold armed toxicity random now =
        let rec = note_request (or_new (c.get s.stalls ip now)) now in
        let touched = record s { stalls = c.touch s.stalls ip now } in
        if is_banned g ip now
        then (count_dropped g, s, destroyed)
        else if leb pairs_needed (length rec.client_gaps)
        then judge_rho g touched ip rec (rho_of rec) threshold armed toxicity random now
        else (
          g,
          record touched { stalls = c.set touched.stalls ip rec now },
          go_on (stall_ms armed false (or_half toxicity) random),
        )

    -- The answer is sent at `now`; the request was held for `held` milliseconds and let on at
    -- `start`.
    unfoldable pub note_delay : StallState c W → Text → W → ℕ → ℕ → StallState c W
    note_delay s ip held start now =
        let touched = c.touch s.stalls ip now in
        if num 0 ⊏ held
        then elim (c.get s.stalls ip now) [
          | none ↦ record s { stalls = touched }
          | some rec ↦ record s { stalls = c.set touched ip (push_delay (now - start) rec) now }
        ]
        else s
